-- ===== src/Sessions/Closing.antt =====
-- Services/DeviceService.m and Services/Sessions/LaunchSession.m: when closing a session is heard of.
use connect_sdk_i_os_core.Prelude.{◌≡◌, refl, ◌↔◌, inl, inr, Bool, true, false, some, Bool-cases}
use connect_sdk_i_os_core.Sessions.{
  LaunchSession, LaunchSessionType, unknown, app, external_input_picker, media, web_app,
  SessionService, calls_nothing, close_by_type, close_on_service, close_launch_session,
  close_if_referenced, close_with_success,
}

-- The class of the service has the method that closes a session of the type.
abbrev pub can_close : LaunchSessionType → SessionService → Bool
can_close unknown s = true
can_close app s = s.is_launcher
can_close external_input_picker s = s.is_external_input_control
can_close media s = s.is_media_player
can_close web_app s = s.is_web_app_launcher

silent_by_type :
    (t : LaunchSessionType) (s : SessionService)
    → (close_by_type t s ≡ calls_nothing) ↔ (can_close t s ≡ false)
unfolding close_by_type
silent_by_type unknown s = (λ e. cc, λ e. cc)
silent_by_type app s = elim (Bool-cases s.is_launcher) [
  | inl e ↦ rw e (λ p. cc, λ p. cc)
  | inr e ↦ rw e (λ p. refl, λ p. refl)
]
silent_by_type external_input_picker s = elim (Bool-cases s.is_external_input_control) [
  | inl e ↦ rw e (λ p. cc, λ p. cc)
  | inr e ↦ rw e (λ p. refl, λ p. refl)
]
silent_by_type media s = elim (Bool-cases s.is_media_player) [
  | inl e ↦ rw e (λ p. cc, λ p. cc)
  | inr e ↦ rw e (λ p. refl, λ p. refl)
]
silent_by_type web_app s = elim (Bool-cases s.is_web_app_launcher) [
  | inl e ↦ rw e (λ p. cc, λ p. cc)
  | inr e ↦ rw e (λ p. refl, λ p. refl)
]

-- Closing a session that has a service calls nothing at all, neither a method of the service nor a
-- block, exactly if the class of the service lacks the method for the type of the session.
pub close_with_success-silent_iff :
    (s : LaunchSession) (service : SessionService)
    → s.service ≡ some service
    → (close_with_success s ≡ calls_nothing) ↔ (can_close s.session_type service ≡ false)
unfolding close_with_success close_if_referenced close_launch_session close_on_service
close_with_success-silent_iff s service e = simp e (silent_by_type s.session_type service)
