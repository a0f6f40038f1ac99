-- ===== src/Capabilities/MediaControl.antt =====
-- Services/Capabilities/MediaControl.h. Positions and durations are whole seconds.
use connect_sdk_i_os_core.Prelude.{ℕ, [], ◌∷◌, some}
use connect_sdk_i_os_core.Capabilities.{CapabilityClass}

-- The constants of the header.
abbrev pub media_control_class : CapabilityClass
media_control_class = record {
  any_capability = some "MediaControl.Any";
  constants =
      "MediaControl.Play" ∷ "MediaControl.Pause" ∷ "MediaControl.Stop" ∷ "MediaControl.Duration"
      ∷ "MediaControl.Rewind" ∷ "MediaControl.FastForward" ∷ "MediaControl.Seek"
      ∷ "MediaControl.PlayState" ∷ "MediaControl.PlayState.Subscribe" ∷ "MediaControl.Position"
      ∷ "MediaControl.MetaData" ∷ "MediaControl.MetaData.Subscribe" ∷ [];
  listed =
      "MediaControl.Play" ∷ "MediaControl.Pause" ∷ "MediaControl.Stop" ∷ "MediaControl.Duration"
      ∷ "MediaControl.Rewind" ∷ "MediaControl.FastForward" ∷ "MediaControl.Seek"
      ∷ "MediaControl.PlayState" ∷ "MediaControl.PlayState.Subscribe" ∷ "MediaControl.Position"
      ∷ "MediaControl.MetaData" ∷ "MediaControl.MetaData.Subscribe" ∷ [];
}

pub data PlayState : Type 0 where
  unknown_state idle playing paused buffering finished : PlayState

-- The calls of the protocol.
pub data MediaControlCall : Type 0 where
  play : MediaControlCall
  pause : MediaControlCall
  stop : MediaControlCall
  rewind : MediaControlCall
  fast_forward : MediaControlCall
  seek : ℕ → MediaControlCall
  get_duration : MediaControlCall
  get_position : MediaControlCall
  get_media_meta_data : MediaControlCall
  get_play_state : MediaControlCall
  subscribe_play_state : MediaControlCall
  subscribe_media_info : MediaControlCall

-- What the success block of a call receives.
abbrev pub MediaControlAnswer : MediaControlCall → Type 0
MediaControlAnswer play = Unit
MediaControlAnswer pause = Unit
MediaControlAnswer stop = Unit
MediaControlAnswer rewind = Unit
MediaControlAnswer fast_forward = Unit
MediaControlAnswer (seek a) = Unit
MediaControlAnswer get_duration = ℕ
MediaControlAnswer get_position = ℕ
MediaControlAnswer get_media_meta_data = ℕ
MediaControlAnswer get_play_state = PlayState
MediaControlAnswer subscribe_play_state = PlayState
MediaControlAnswer subscribe_media_info = ℕ
