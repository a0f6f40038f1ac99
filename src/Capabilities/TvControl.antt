-- ===== src/Capabilities/TvControl.antt =====
-- Services/Capabilities/TVControl.h.
use connect_sdk_i_os_core.Prelude.{Bool, List, [], ◌∷◌, some}
use connect_sdk_i_os_core.Info.{ChannelInfo, ProgramInfo}
use connect_sdk_i_os_core.Capabilities.{CapabilityClass}

-- The constants of the header.
abbrev pub tv_control_class : CapabilityClass
tv_control_class = record {
  any_capability = some "TVControl.Any";
  constants =
      "TVControl.Channel.Get" ∷ "TVControl.Channel.Set" ∷ "TVControl.Channel.Up"
      ∷ "TVControl.Channel.Down" ∷ "TVControl.Channel.List" ∷ "TVControl.Channel.Subscribe"
      ∷ "TVControl.Program.Get" ∷ "TVControl.Program.List" ∷ "TVControl.Program.Subscribe"
      ∷ "TVControl.Program.List.Subscribe" ∷ "TVControl.3D.Get" ∷ "TVControl.3D.Set"
      ∷ "TVControl.3D.Subscribe" ∷ [];
  listed =
      "TVControl.Channel.Get" ∷ "TVControl.Channel.Set" ∷ "TVControl.Channel.Up"
      ∷ "TVControl.Channel.Down" ∷ "TVControl.Channel.List" ∷ "TVControl.Channel.Subscribe"
      ∷ "TVControl.Program.Get" ∷ "TVControl.Program.List" ∷ "TVControl.Program.Subscribe"
      ∷ "TVControl.Program.List.Subscribe" ∷ "TVControl.3D.Get" ∷ "TVControl.3D.Set"
      ∷ "TVControl.3D.Subscribe" ∷ [];
}

-- The calls of the protocol.
pub data TvControlCall : Type 0 where
  channel_up : TvControlCall
  channel_down : TvControlCall
  set_channel : ChannelInfo → TvControlCall
  get_current_channel : TvControlCall
  subscribe_current_channel : TvControlCall
  get_channel_list : TvControlCall
  get_program_info : TvControlCall
  subscribe_program_info : TvControlCall
  get_program_list : TvControlCall
  subscribe_program_list : TvControlCall
  get_3d_enabled : TvControlCall
  set_3d_enabled : Bool → TvControlCall
  subscribe_3d_enabled : TvControlCall

-- What the success block of a call receives.
abbrev pub TvControlAnswer : TvControlCall → Type 0
TvControlAnswer channel_up = Unit
TvControlAnswer channel_down = Unit
TvControlAnswer (set_channel a) = Unit
TvControlAnswer get_current_channel = ChannelInfo
TvControlAnswer subscribe_current_channel = ChannelInfo
TvControlAnswer get_channel_list = List ChannelInfo
TvControlAnswer get_program_info = ProgramInfo
TvControlAnswer subscribe_program_info = ProgramInfo
TvControlAnswer get_program_list = List ProgramInfo
TvControlAnswer subscribe_program_list = List ProgramInfo
TvControlAnswer get_3d_enabled = Bool
TvControlAnswer (set_3d_enabled a) = Unit
TvControlAnswer subscribe_3d_enabled = Bool
