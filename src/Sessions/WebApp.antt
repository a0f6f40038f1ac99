-- ===== src/Sessions/WebApp.antt =====
-- Services/Sessions/WebAppSession.m: the base class of the sessions of web apps. Its calls are those
-- of its own header and of the protocols that it adopts; each is refused, but for those that go on to
-- the media control of the service.
use connect_sdk_i_os_core.Prelude.{
  ℕ, String, ◌≡◌, ◌≢◌, refl, Bool, true, false, ◌&&◌, Option, none, some, if◌then◌else◌, Bool-cases,
  inl, inr,
}
use connect_sdk_i_os_core.Capabilities.{Reply, not_supported_failure}
use connect_sdk_i_os_core.Capabilities.MediaPlayer.{MediaPlayerCall, MediaPlayerAnswer}
use connect_sdk_i_os_core.Capabilities.MediaControl.{
  MediaControlCall, MediaControlAnswer, play, pause, stop, rewind, fast_forward, seek, get_duration,
  get_position, get_media_meta_data, get_play_state, subscribe_play_state, subscribe_media_info,
}
use connect_sdk_i_os_core.Capabilities.PlayListControl.{PlayListControlCall, PlayListControlAnswer}
use connect_sdk_i_os_core.Sessions.{LaunchSession, SessionService}

pub data WebAppStatus : Type 0 where
  status_unknown open_status background foreground closed_status : WebAppStatus

-- `has_delegate` is whether the delegate is set.
pub record WebAppSession : Type 0 where
  pub launch_session : Option LaunchSession
  pub service : Option SessionService
  pub has_delegate : Bool

-- The messages to the delegate: a message of the app, by the number of its object, and the end of the
-- channel.
pub data WebAppSessionNotice : Type 0 where
  receives_message : ℕ → WebAppSessionNotice
  ends : WebAppSessionNotice

-- The calls of the header, and those of the protocols that the class adopts.
pub data WebAppSessionCall : Type 0 where
  subscribe_web_app_status join close connect disconnect_from_web_app : WebAppSessionCall
  pin_web_app un_pin_web_app is_web_app_pinned : Option String → WebAppSessionCall
  send_text : Option String → WebAppSessionCall
  send_json : Option ℕ → WebAppSessionCall
  on_player : MediaPlayerCall → WebAppSessionCall
  on_control : MediaControlCall → WebAppSessionCall
  on_play_list : PlayListControlCall → WebAppSessionCall

-- What the success block of a call receives.
abbrev pub WebAppSessionAnswer : WebAppSessionCall → Type 0
WebAppSessionAnswer subscribe_web_app_status = WebAppStatus
WebAppSessionAnswer join = Unit
WebAppSessionAnswer close = Unit
WebAppSessionAnswer connect = Unit
WebAppSessionAnswer disconnect_from_web_app = Unit
WebAppSessionAnswer (pin_web_app app) = Unit
WebAppSessionAnswer (un_pin_web_app app) = Unit
WebAppSessionAnswer (is_web_app_pinned app) = Bool
WebAppSessionAnswer (send_text message) = Unit
WebAppSessionAnswer (send_json message) = Unit
WebAppSessionAnswer (on_player c) = MediaPlayerAnswer c
WebAppSessionAnswer (on_control c) = MediaControlAnswer c
WebAppSessionAnswer (on_play_list c) = PlayListControlAnswer c

-- What a call comes to: a block runs, the call goes on to the media control of the service, or
-- nothing happens.
pub data WebAppOutcome (A : Type 0) : Type 0 where
  replies : Reply A → WebAppOutcome A
  goes_on : MediaControlCall → WebAppOutcome A
  does_nothing : WebAppOutcome A

-- `[self sendNotSupportedFailure:failure]`.
abbrev unsupported : {A : Type 0} → WebAppOutcome A
unsupported = replies not_supported_failure

abbrev pub has_control : WebAppSession → Bool
has_control s = elim s.service [ none ↦ false | some service ↦ service.has_media_control ]

-- The calls that go on where the service has a media control.
abbrev pass : {A : Type 0} → WebAppSession → MediaControlCall → WebAppOutcome A
pass s c = if has_control s then goes_on c else unsupported

unfoldable pub control_web_app :
    (s : WebAppSession) (c : MediaControlCall) → WebAppOutcome (MediaControlAnswer c)
control_web_app s play = pass s play
control_web_app s pause = pass s pause
control_web_app s stop = pass s stop
control_web_app s rewind = pass s rewind
control_web_app s fast_forward = pass s fast_forward
control_web_app s (seek position) = unsupported
control_web_app s get_duration = unsupported
control_web_app s get_position = unsupported
control_web_app s get_media_meta_data = unsupported
control_web_app s get_play_state = unsupported
control_web_app s subscribe_play_state = unsupported
control_web_app s subscribe_media_info = unsupported

unfoldable pub call_web_app :
    (s : WebAppSession) (c : WebAppSessionCall) → WebAppOutcome (WebAppSessionAnswer c)
call_web_app s subscribe_web_app_status = unsupported
call_web_app s join = unsupported
call_web_app s close = unsupported
call_web_app s connect = unsupported
call_web_app s disconnect_from_web_app = does_nothing
call_web_app s (pin_web_app app) = unsupported
call_web_app s (un_pin_web_app app) = unsupported
call_web_app s (is_web_app_pinned app) = unsupported
call_web_app s (send_text message) = unsupported
call_web_app s (send_json message) = unsupported
call_web_app s (on_player c) = unsupported
call_web_app s (on_control c) = control_web_app s c
call_web_app s (on_play_list c) = unsupported

-- The call is one of the five that steer the playback.
abbrev pub steers : MediaControlCall → Bool
steers play = true
steers pause = true
steers stop = true
steers rewind = true
steers fast_forward = true
steers (seek position) = false
steers get_duration = false
steers get_position = false
steers get_media_meta_data = false
steers get_play_state = false
steers subscribe_play_state = false
steers subscribe_media_info = false

control_web_app-lem :
    (s : WebAppSession) (c : MediaControlCall)
    → control_web_app s c ≡ (if steers c && has_control s then goes_on c else unsupported)
unfolding control_web_app
control_web_app-lem s play = refl
control_web_app-lem s pause = refl
control_web_app-lem s stop = refl
control_web_app-lem s rewind = refl
control_web_app-lem s fast_forward = refl
control_web_app-lem s (seek position) = refl
control_web_app-lem s get_duration = refl
control_web_app-lem s get_position = refl
control_web_app-lem s get_media_meta_data = refl
control_web_app-lem s get_play_state = refl
control_web_app-lem s subscribe_play_state = refl
control_web_app-lem s subscribe_media_info = refl

-- A web app session whose service has no media control refuses every call as not supported, also those
-- of the protocols that it adopts, but for the end of its channel.
pub call_web_app-unsupported :
    (s : WebAppSession) (c : WebAppSessionCall)
    → has_control s ≡ false
    → c ≢ disconnect_from_web_app
    → call_web_app s c ≡ replies not_supported_failure
unfolding call_web_app
call_web_app-unsupported s subscribe_web_app_status e n = refl
call_web_app-unsupported s join e n = refl
call_web_app-unsupported s close e n = refl
call_web_app-unsupported s connect e n = refl
call_web_app-unsupported s disconnect_from_web_app e n = absurd (n refl)
call_web_app-unsupported s (pin_web_app app) e n = refl
call_web_app-unsupported s (un_pin_web_app app) e n = refl
call_web_app-unsupported s (is_web_app_pinned app) e n = refl
call_web_app-unsupported s (send_text message) e n = refl
call_web_app-unsupported s (send_json message) e n = refl
call_web_app-unsupported s (on_player c) e n = refl
call_web_app-unsupported s (on_control c) e n =
    rw (control_web_app-lem s c)
      (elim (Bool-cases (steers c)) [ inl t ↦ simp (t, e) refl | inr t ↦ simp t refl ])
call_web_app-unsupported s (on_play_list c) e n = refl
