-- ===== src/Capabilities/CastControls.antt =====
-- Services/Capabilities/ScreenMirroringControl.h and RemoteCameraControl.h. These calls have no blocks: a
-- delegate is told of what comes of them. Settings and buffers stand as numbers of their objects.
use connect_sdk_i_os_core.Prelude.{ℕ, String, Bool, [], ◌∷◌, Option, some}
use connect_sdk_i_os_core.Capabilities.{CapabilityClass}

-- The constants of the header.
abbrev pub screen_mirroring_control_class : CapabilityClass
screen_mirroring_control_class = record {
  any_capability = some "ScreenMirroringControl.Any";
  constants = "ScreenMirroringControl.ScreenMirroring" ∷ [];
  listed = "ScreenMirroringControl.ScreenMirroring" ∷ [];
}

pub data ScreenMirroringError : Type 0 where
  mirroring_generic mirroring_connection_closed mirroring_device_shutdown
        mirroring_renderer_terminated :
      ScreenMirroringError

-- The messages to the delegate.
pub data ScreenMirroringNotice : Type 0 where
  mirroring_did_start mirroring_did_stop : Bool → ScreenMirroringNotice
  mirroring_error_did_occur : ScreenMirroringError → ScreenMirroringNotice

pub data ScreenMirroringCall : Type 0 where
  start_screen_mirroring : ScreenMirroringCall
  start_screen_mirroring_with_settings : Option ℕ → ScreenMirroringCall
  push_sample_buffer : ℕ → ℕ → ScreenMirroringCall
  stop_screen_mirroring : ScreenMirroringCall
  set_screen_mirroring_delegate : Option ℕ → ScreenMirroringCall

-- The constants of the header.
abbrev pub remote_camera_control_class : CapabilityClass
remote_camera_control_class = record {
  any_capability = some "RemoteCameraControl.Any";
  constants = "RemoteCameraControl.RemoteCamera" ∷ [];
  listed = "RemoteCameraControl.RemoteCamera" ∷ [];
}

-- The keys of the settings.
abbrev pub mic_mute_setting : String
mic_mute_setting = "RemoteCamera.Settings.MicMute"

abbrev pub lens_facing_setting : String
lens_facing_setting = "RemoteCamera.Settings.LensFacing"

pub data LensFacing : Type 0 where
  front back_lens : LensFacing

pub data RemoteCameraProperty : Type 0 where
  unknown_property brightness white_balance rotation : RemoteCameraProperty

pub data RemoteCameraError : Type 0 where
  camera_generic camera_connection_closed camera_device_shutdown camera_renderer_terminated :
      RemoteCameraError

-- The messages to the delegate.
pub data RemoteCameraNotice : Type 0 where
  did_pair did_play access_denied : RemoteCameraNotice
  camera_did_start camera_did_stop : Bool → RemoteCameraNotice
  did_change : RemoteCameraProperty → RemoteCameraNotice
  camera_error_did_occur : RemoteCameraError → RemoteCameraNotice

pub data RemoteCameraCall : Type 0 where
  start_remote_camera stop_remote_camera : RemoteCameraCall
  start_remote_camera_with_settings : Option ℕ → RemoteCameraCall
  set_lens_facing : ℕ → RemoteCameraCall
  set_mic_mute : Bool → RemoteCameraCall
  set_remote_camera_delegate : Option ℕ → RemoteCameraCall
