-- ===== src/Sessions/RoundTrip.antt =====
-- Services/Sessions/LaunchSession.m: what is left of a session that was stored as JSON.
use connect_sdk_i_os_core.Prelude.{
  String, ◌≡◌, ◌⊎◌, inl, inr, refl, Option, none, some, Option-cases, Dict, or_else, object_for_key,
  object_for_key-put_value, text_eq,
}
use connect_sdk_i_os_core.Sessions.{
  LaunchSession, LaunchSessionType, unknown, app, external_input_picker, media, web_app, RawData,
  as_text, as_number, as_raw, stored_raw, to_json_object, text_of, type_of, raw_of, text, Value,
  SessionService, service_entry, dictionary_of, launch_session_from_json_object,
}

ruleset lookups = object_for_key-put_value

text_of-as_text : (s : Option String) → text_of (or_else (as_text s) none) ≡ s
text_of-as_text none = refl
text_of-as_text (some s) = refl

type_of-as_number : (t : LaunchSessionType) → type_of (or_else (as_number t) none) ≡ t
type_of-as_number unknown = refl
type_of-as_number app = refl
type_of-as_number external_input_picker = refl
type_of-as_number media = refl
type_of-as_number web_app = refl

raw_of-as_raw : (r : Option RawData) → raw_of (or_else (as_raw r) none) ≡ r
raw_of-as_raw none = refl
raw_of-as_raw (some r) = refl

-- The session has a service without a name.
abbrev pub IsNameless : Option SessionService → Type 0
IsNameless none = ⊥
IsNameless (some service) = service.name ≡ none

-- What stands in the dictionary, whatever stands under the name of the service.
stored :
    (s : LaunchSession) (entry : Option Value)
    → service_entry s.service ≡ some entry
    → (json : Dict Value) × (to_json_object s ≡ some json)
      × (launch_session_from_json_object json
          ≡ record s { service = none; raw_data = stored_raw s.raw_data })
unfolding launch_session_from_json_object to_json_object dictionary_of text_eq object_for_key
stored s entry e = (
  dictionary_of s entry,
  rw e refl,
  simp (lookups, text_of-as_text, type_of-as_number, raw_of-as_raw) refl,
)

-- A session with a service without a name raises an exception when it is stored. Any other one that
-- was stored and read again is the session without its service, and without raw data that JSON does
-- not have.
pub launch_session_from_json_object-to_json_object :
    (s : LaunchSession)
    → (IsNameless s.service × (to_json_object s ≡ none))
      ⊎ ((¬ IsNameless s.service)
          × ((json : Dict Value) × (to_json_object s ≡ some json)
              × (launch_session_from_json_object json
                  ≡ record s { service = none; raw_data = stored_raw s.raw_data })))
unfolding to_json_object
launch_session_from_json_object-to_json_object s = elim (Option-cases s.service) [
  | inl e ↦ inr (rw e (λ b. b), stored s none (rw e refl))
  | inr (service, e) ↦ elim (Option-cases service.name) [
    | inl n ↦ inl (rw e n, rw e (rw n refl))
    | inr (name, n) ↦ inr (rw e (λ b. cc (b, n)), stored s (some (text name)) (rw e (rw n refl)))
  ]
]
