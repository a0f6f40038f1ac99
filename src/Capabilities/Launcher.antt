-- ===== src/Capabilities/Launcher.antt =====
-- Services/Capabilities/Launcher.h. A launch session is the number of its object.
use connect_sdk_i_os_core.Prelude.{ℕ, String, Bool, List, [], ◌∷◌, Option, some}
use connect_sdk_i_os_core.Info.{AppInfo}
use connect_sdk_i_os_core.Capabilities.{CapabilityClass}

-- The constants of the header.
abbrev pub launcher_class : CapabilityClass
launcher_class = record {
  any_capability = some "Launcher.Any";
  constants =
      "Launcher.App" ∷ "Launcher.App.Params" ∷ "Launcher.App.Close" ∷ "Launcher.App.List"
      ∷ "Launcher.AppStore" ∷ "Launcher.AppStore.Params" ∷ "Launcher.Browser"
      ∷ "Launcher.Browser.Params" ∷ "Launcher.Hulu" ∷ "Launcher.Hulu.Params" ∷ "Launcher.Netflix"
      ∷ "Launcher.Netflix.Params" ∷ "Launcher.YouTube" ∷ "Launcher.YouTube.Params"
      ∷ "Launcher.AppState" ∷ "Launcher.AppState.Subscribe" ∷ "Launcher.RunningApp"
      ∷ "Launcher.RunningApp.Subscribe" ∷ [];
  listed =
      "Launcher.App" ∷ "Launcher.App.Params" ∷ "Launcher.App.Close" ∷ "Launcher.App.List"
      ∷ "Launcher.AppStore" ∷ "Launcher.AppStore.Params" ∷ "Launcher.Browser"
      ∷ "Launcher.Browser.Params" ∷ "Launcher.Hulu" ∷ "Launcher.Hulu.Params" ∷ "Launcher.Netflix"
      ∷ "Launcher.Netflix.Params" ∷ "Launcher.YouTube" ∷ "Launcher.YouTube.Params"
      ∷ "Launcher.AppState" ∷ "Launcher.AppState.Subscribe" ∷ "Launcher.RunningApp"
      ∷ "Launcher.RunningApp.Subscribe" ∷ [];
}

-- The calls of the protocol.
pub data LauncherCall : Type 0 where
  launch_app : Option String → LauncherCall
  launch_app_with_info : AppInfo → LauncherCall
  launch_app_with_params : AppInfo → Option ℕ → LauncherCall
  close_app : Option ℕ → LauncherCall
  get_app_list : LauncherCall
  get_running_app : LauncherCall
  subscribe_running_app : LauncherCall
  get_app_state : Option ℕ → LauncherCall
  subscribe_app_state : Option ℕ → LauncherCall
  launch_app_store : Option String → LauncherCall
  launch_browser : Option String → LauncherCall
  launch_you_tube : Option String → LauncherCall
  launch_you_tube_at : Option String → ℕ → LauncherCall
  launch_netflix : Option String → LauncherCall
  launch_hulu : Option String → LauncherCall

-- What the success block of a call receives.
abbrev pub LauncherAnswer : LauncherCall → Type 0
LauncherAnswer (launch_app a) = ℕ
LauncherAnswer (launch_app_with_info a) = ℕ
LauncherAnswer (launch_app_with_params a b) = ℕ
LauncherAnswer (close_app a) = Unit
LauncherAnswer get_app_list = List AppInfo
LauncherAnswer get_running_app = AppInfo
LauncherAnswer subscribe_running_app = AppInfo
LauncherAnswer (get_app_state a) = Bool × Bool
LauncherAnswer (subscribe_app_state a) = Bool × Bool
LauncherAnswer (launch_app_store a) = ℕ
LauncherAnswer (launch_browser a) = ℕ
LauncherAnswer (launch_you_tube a) = ℕ
LauncherAnswer (launch_you_tube_at a b) = ℕ
LauncherAnswer (launch_netflix a) = ℕ
LauncherAnswer (launch_hulu a) = ℕ
