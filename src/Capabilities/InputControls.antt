-- ===== src/Capabilities/InputControls.antt =====
-- Services/Capabilities/KeyControl.h, MouseControl.h and TextInputControl.h. A distance of the mouse is a
-- pair of steps, given as a type of the model.
use connect_sdk_i_os_core.Prelude.{ℕ, String, Bool, [], ◌∷◌, Option, some}
use connect_sdk_i_os_core.Info.{TextInputStatusInfo}
use connect_sdk_i_os_core.Capabilities.{CapabilityClass}

-- The constants of the header.
abbrev pub key_control_class : CapabilityClass
key_control_class = record {
  any_capability = some "KeyControl.Any";
  constants =
      "KeyControl.Up" ∷ "KeyControl.Down" ∷ "KeyControl.Left" ∷ "KeyControl.Right" ∷ "KeyControl.OK"
      ∷ "KeyControl.Back" ∷ "KeyControl.Home" ∷ "KeyControl.Send.KeyCode" ∷ [];
  listed =
      "KeyControl.Up" ∷ "KeyControl.Down" ∷ "KeyControl.Left" ∷ "KeyControl.Right" ∷ "KeyControl.OK"
      ∷ "KeyControl.Back" ∷ "KeyControl.Home" ∷ "KeyControl.Send.KeyCode" ∷ [];
}

-- The calls of the protocol.
pub data KeyControlCall : Type 0 where
  up : KeyControlCall
  down : KeyControlCall
  left : KeyControlCall
  right : KeyControlCall
  ok : KeyControlCall
  back : KeyControlCall
  home : KeyControlCall
  send_key_code : ℕ → KeyControlCall

-- What the success block of a call receives.
abbrev pub KeyControlAnswer : KeyControlCall → Type 0
KeyControlAnswer up = Unit
KeyControlAnswer down = Unit
KeyControlAnswer left = Unit
KeyControlAnswer right = Unit
KeyControlAnswer ok = Unit
KeyControlAnswer back = Unit
KeyControlAnswer home = Unit
KeyControlAnswer (send_key_code a) = Unit

-- The constants of the mouse.
abbrev pub mouse_control_class : CapabilityClass
mouse_control_class = record {
  any_capability = some "MouseControl.Any";
  constants =
      "MouseControl.Connect" ∷ "MouseControl.Disconnect" ∷ "MouseControl.Click"
      ∷ "MouseControl.Move" ∷ "MouseControl.Scroll" ∷ [];
  listed =
      "MouseControl.Connect" ∷ "MouseControl.Disconnect" ∷ "MouseControl.Click"
      ∷ "MouseControl.Move" ∷ "MouseControl.Scroll" ∷ [];
}

-- A distance. The source has floats; `right` and `down` stand for them as steps either way.
pub record Distance : Type 0 where
  pub to_right : Bool
  pub horizontal : ℕ
  pub downwards : Bool
  pub vertical : ℕ

-- The calls of the protocol.
pub data MouseControlCall : Type 0 where
  connect_mouse : MouseControlCall
  disconnect_mouse : MouseControlCall
  click : MouseControlCall
  move : Distance → MouseControlCall
  scroll : Distance → MouseControlCall

-- What the success block of a call receives.
abbrev pub MouseControlAnswer : MouseControlCall → Type 0
MouseControlAnswer connect_mouse = Unit
MouseControlAnswer disconnect_mouse = Unit
MouseControlAnswer click = Unit
MouseControlAnswer (move a) = Unit
MouseControlAnswer (scroll a) = Unit

-- The constants of the header.
abbrev pub text_input_control_class : CapabilityClass
text_input_control_class = record {
  any_capability = some "TextInputControl.Any";
  constants =
      "TextInputControl.Send.Text" ∷ "TextInputControl.Send.Enter" ∷ "TextInputControl.Send.Delete"
      ∷ "TextInputControl.Subscribe" ∷ [];
  listed =
      "TextInputControl.Send.Text" ∷ "TextInputControl.Send.Enter" ∷ "TextInputControl.Send.Delete"
      ∷ "TextInputControl.Subscribe" ∷ [];
}

-- The calls of the protocol.
pub data TextInputControlCall : Type 0 where
  subscribe_text_input_status : TextInputControlCall
  send_text : Option String → TextInputControlCall
  send_enter : TextInputControlCall
  send_delete : TextInputControlCall

-- What the success block of a call receives.
abbrev pub TextInputControlAnswer : TextInputControlCall → Type 0
TextInputControlAnswer subscribe_text_input_status = TextInputStatusInfo
TextInputControlAnswer (send_text a) = Unit
TextInputControlAnswer send_enter = Unit
TextInputControlAnswer send_delete = Unit
