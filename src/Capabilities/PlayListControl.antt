-- ===== src/Capabilities/PlayListControl.antt =====
-- Services/Capabilities/PlayListControl.h.
use connect_sdk_i_os_core.Prelude.{ℕ, [], ◌∷◌, none}
use connect_sdk_i_os_core.Capabilities.{CapabilityClass}

-- The constants of the header.
abbrev pub play_list_control_class : CapabilityClass
play_list_control_class = record {
  any_capability = none;
  constants =
      "PlayListControl.Next" ∷ "PlayListControl.Previous" ∷ "PlayListControl.JumpTrack" ∷ [];
  listed = "PlayListControl.Next" ∷ "PlayListControl.Previous" ∷ "PlayListControl.JumpTrack" ∷ [];
}

-- The calls of the protocol.
pub data PlayListControlCall : Type 0 where
  play_next : PlayListControlCall
  play_previous : PlayListControlCall
  jump_to_track : ℕ → PlayListControlCall

-- What the success block of a call receives.
abbrev pub PlayListControlAnswer : PlayListControlCall → Type 0
PlayListControlAnswer play_next = Unit
PlayListControlAnswer play_previous = Unit
PlayListControlAnswer (jump_to_track a) = Unit
