-- ===== src/Capabilities/WebAppLauncher.antt =====
-- Services/Capabilities/WebAppLauncher.h. A web app session is the number of its object.
use connect_sdk_i_os_core.Prelude.{ℕ, String, Bool, [], ◌∷◌, Option, some}
use connect_sdk_i_os_core.Capabilities.{CapabilityClass}

-- The constants of the header.
abbrev pub web_app_launcher_class : CapabilityClass
web_app_launcher_class = record {
  any_capability = some "WebAppLauncher.Any";
  constants =
      "WebAppLauncher.Launch" ∷ "WebAppLauncher.Launch.Params" ∷ "WebAppLauncher.Message.Send"
      ∷ "WebAppLauncher.Message.Receive" ∷ "WebAppLauncher.Message.Send.JSON"
      ∷ "WebAppLauncher.Message.Receive.JSON" ∷ "WebAppLauncher.Connect"
      ∷ "WebAppLauncher.Disconnect" ∷ "WebAppLauncher.Join" ∷ "WebAppLauncher.Close"
      ∷ "WebAppLauncher.Pin" ∷ [];
  listed =
      "WebAppLauncher.Launch" ∷ "WebAppLauncher.Launch.Params" ∷ "WebAppLauncher.Message.Send"
      ∷ "WebAppLauncher.Message.Receive" ∷ "WebAppLauncher.Message.Send.JSON"
      ∷ "WebAppLauncher.Message.Receive.JSON" ∷ "WebAppLauncher.Connect"
      ∷ "WebAppLauncher.Disconnect" ∷ "WebAppLauncher.Join" ∷ "WebAppLauncher.Close"
      ∷ "WebAppLauncher.Pin" ∷ [];
}

-- The calls of the protocol.
pub data WebAppLauncherCall : Type 0 where
  launch_web_app : Option String → WebAppLauncherCall
  launch_web_app_with_params : Option String → Option ℕ → WebAppLauncherCall
  launch_web_app_relaunch : Option String → Bool → WebAppLauncherCall
  launch_web_app_with_params_relaunch : Option String → Option ℕ → Bool → WebAppLauncherCall
  join_web_app : Option ℕ → WebAppLauncherCall
  join_web_app_with_id : Option String → WebAppLauncherCall
  close_web_app : Option ℕ → WebAppLauncherCall
  pin_web_app : Option String → WebAppLauncherCall
  un_pin_web_app : Option String → WebAppLauncherCall
  is_web_app_pinned : Option String → WebAppLauncherCall
  subscribe_is_web_app_pinned : Option String → WebAppLauncherCall

-- What the success block of a call receives.
abbrev pub WebAppLauncherAnswer : WebAppLauncherCall → Type 0
WebAppLauncherAnswer (launch_web_app a) = ℕ
WebAppLauncherAnswer (launch_web_app_with_params a b) = ℕ
WebAppLauncherAnswer (launch_web_app_relaunch a b) = ℕ
WebAppLauncherAnswer (launch_web_app_with_params_relaunch a b c) = ℕ
WebAppLauncherAnswer (join_web_app a) = ℕ
WebAppLauncherAnswer (join_web_app_with_id a) = ℕ
WebAppLauncherAnswer (close_web_app a) = Unit
WebAppLauncherAnswer (pin_web_app a) = Unit
WebAppLauncherAnswer (un_pin_web_app a) = Unit
WebAppLauncherAnswer (is_web_app_pinned a) = Bool
WebAppLauncherAnswer (subscribe_is_web_app_pinned a) = Bool
