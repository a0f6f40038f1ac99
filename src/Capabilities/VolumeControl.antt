-- ===== src/Capabilities/VolumeControl.antt =====
-- Services/Capabilities/VolumeControl.h. A volume is a number of hundredths, which stands for the float
-- between 0 and 1.
use connect_sdk_i_os_core.Prelude.{ℕ, Bool, [], ◌∷◌, some}
use connect_sdk_i_os_core.Capabilities.{CapabilityClass}

-- The constants of the header.
abbrev pub volume_control_class : CapabilityClass
volume_control_class = record {
  any_capability = some "VolumeControl.Any";
  constants =
      "VolumeControl.Get" ∷ "VolumeControl.Set" ∷ "VolumeControl.UpDown" ∷ "VolumeControl.Subscribe"
      ∷ "VolumeControl.Mute.Get" ∷ "VolumeControl.Mute.Set" ∷ "VolumeControl.Mute.Subscribe" ∷ [];
  listed =
      "VolumeControl.Get" ∷ "VolumeControl.Set" ∷ "VolumeControl.UpDown" ∷ "VolumeControl.Subscribe"
      ∷ "VolumeControl.Mute.Get" ∷ "VolumeControl.Mute.Set" ∷ "VolumeControl.Mute.Subscribe" ∷ [];
}

-- The calls of the protocol.
pub data VolumeControlCall : Type 0 where
  volume_up : VolumeControlCall
  volume_down : VolumeControlCall
  get_volume : VolumeControlCall
  set_volume : ℕ → VolumeControlCall
  subscribe_volume : VolumeControlCall
  get_mute : VolumeControlCall
  set_mute : Bool → VolumeControlCall
  subscribe_mute : VolumeControlCall

-- What the success block of a call receives.
abbrev pub VolumeControlAnswer : VolumeControlCall → Type 0
VolumeControlAnswer volume_up = Unit
VolumeControlAnswer volume_down = Unit
VolumeControlAnswer get_volume = ℕ
VolumeControlAnswer (set_volume a) = Unit
VolumeControlAnswer subscribe_volume = ℕ
VolumeControlAnswer get_mute = Bool
VolumeControlAnswer (set_mute a) = Unit
VolumeControlAnswer subscribe_mute = Bool
