-- ===== src/Capabilities/SystemControls.antt =====
-- Services/Capabilities/PowerControl.h, ToastControl.h and ExternalInputControl.h.
use connect_sdk_i_os_core.Prelude.{ℕ, String, List, [], ◌∷◌, Option, some}
use connect_sdk_i_os_core.Info.{AppInfo, ExternalInputInfo}
use connect_sdk_i_os_core.Capabilities.{CapabilityClass}

-- The constants of the header.
abbrev pub power_control_class : CapabilityClass
power_control_class = record {
  any_capability = some "PowerControl.Any";
  constants = "PowerControl.Off" ∷ "PowerControl.On" ∷ [];
  listed = "PowerControl.Off" ∷ "PowerControl.On" ∷ [];
}

-- The calls of the protocol.
pub data PowerControlCall : Type 0 where
  power_off : PowerControlCall
  power_on : PowerControlCall

-- What the success block of a call receives.
abbrev pub PowerControlAnswer : PowerControlCall → Type 0
PowerControlAnswer power_off = Unit
PowerControlAnswer power_on = Unit

-- The constants of the header.
abbrev pub toast_control_class : CapabilityClass
toast_control_class = record {
  any_capability = some "ToastControl.Any";
  constants =
      "ToastControl.Show" ∷ "ToastControl.Show.Clickable.App"
      ∷ "ToastControl.Show.Clickable.App.Params" ∷ "ToastControl.Show.Clickable.URL" ∷ [];
  listed =
      "ToastControl.Show" ∷ "ToastControl.Show.Clickable.App"
      ∷ "ToastControl.Show.Clickable.App.Params" ∷ "ToastControl.Show.Clickable.URL" ∷ [];
}

-- The calls of the protocol.
pub data ToastControlCall : Type 0 where
  show_toast : Option String → ToastControlCall
  show_toast_with_icon : Option String → Option String → Option String → ToastControlCall
  show_clickable_toast_app : Option String → Option AppInfo → Option ℕ → ToastControlCall
  show_clickable_toast_app_with_icon :
      Option String → Option AppInfo → Option ℕ → Option String → Option String → ToastControlCall
  show_clickable_toast_url : Option String → Option String → ToastControlCall
  show_clickable_toast_url_with_icon :
      Option String → Option String → Option String → Option String → ToastControlCall

-- What the success block of a call receives.
abbrev pub ToastControlAnswer : ToastControlCall → Type 0
ToastControlAnswer (show_toast a) = Unit
ToastControlAnswer (show_toast_with_icon a b c) = Unit
ToastControlAnswer (show_clickable_toast_app a b c) = Unit
ToastControlAnswer (show_clickable_toast_app_with_icon a b c d e) = Unit
ToastControlAnswer (show_clickable_toast_url a b) = Unit
ToastControlAnswer (show_clickable_toast_url_with_icon a b c d) = Unit

-- The constants of the header.
abbrev pub external_input_control_class : CapabilityClass
external_input_control_class = record {
  any_capability = some "ExternalInputControl.Any";
  constants =
      "ExternalInputControl.Picker.Launch" ∷ "ExternalInputControl.Picker.Close"
      ∷ "ExternalInputControl.List" ∷ "ExternalInputControl.Set" ∷ [];
  listed =
      "ExternalInputControl.Picker.Launch" ∷ "ExternalInputControl.Picker.Close"
      ∷ "ExternalInputControl.List" ∷ "ExternalInputControl.Set" ∷ [];
}

-- The calls of the protocol.
pub data ExternalInputControlCall : Type 0 where
  launch_input_picker : ExternalInputControlCall
  close_input_picker : Option ℕ → ExternalInputControlCall
  get_external_input_list : ExternalInputControlCall
  set_external_input : ExternalInputInfo → ExternalInputControlCall

-- What the success block of a call receives.
abbrev pub ExternalInputControlAnswer : ExternalInputControlCall → Type 0
ExternalInputControlAnswer launch_input_picker = ℕ
ExternalInputControlAnswer (close_input_picker a) = Unit
ExternalInputControlAnswer get_external_input_list = List ExternalInputInfo
ExternalInputControlAnswer (set_external_input a) = Unit
