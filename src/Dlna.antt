-- ===== src/Dlna.antt =====
-- Services/DLNAService.m: the times of a player as texts, and the states of a player. A text is
-- its list of codes.
use connect_sdk_i_os_core.Prelude.{
  ℕ, ◌-◌, ◌/◌, ◌%◌, String, List, [], ◌∷◌, ◌++◌, Option, none, some, if◌then◌else◌, text_eq,
}
use connect_sdk_i_os_core.Capabilities.MediaControl.{
  PlayState, unknown_state, idle, playing, paused, finished,
}

-- An `int`, by its sign and its size.
pub data Whole : Type 0 where
  plus minus : ℕ → Whole

abbrev pub size : Whole → ℕ
size (plus n) = n
size (minus n) = n

-- A number with the sign of another one: division of `int` drops the fraction and keeps the sign.
abbrev pub like : Whole → ℕ → Whole
like (plus m) n = plus n
like (minus m) n = minus n

-- The numbers of `stringForTime:`.
pub record Clock : Type 0 where
  pub hour : Whole
  pub minute : Whole
  pub second : Whole

-- The time is the `int` that the interval is rounded to; an interval that no `int` holds is not
-- considered.
unfoldable pub clock_of : Whole → Clock
clock_of time = record {
  hour = like time (size time / 3600);
  minute = like time ((size time / 60) % 60);
  second = like time (size time % 60);
}

-- `%02d` of the format.
module _ (two_digits : Whole → List ℕ) where
  unfoldable pub string_for_time : Whole → List ℕ
  string_for_time time =
      let c = clock_of time in
      two_digits c.hour ++ (b':' ∷ (two_digits c.minute ++ (b':' ∷ two_digits c.second)))

-- `timeIntervalSinceDate:`, which answers 0 for nil, and not below 0.
abbrev pub interval_since : Option ℕ → Option ℕ → ℕ
interval_since none midnight = 0
interval_since (some time) none = 0
interval_since (some time) (some midnight) = time - midnight

abbrev pub midnight_text : List ℕ
midnight_text = b'0' ∷ b'0' ∷ b':' ∷ b'0' ∷ b'0' ∷ b':' ∷ b'0' ∷ b'0' ∷ []

-- A formatter of `HH:m:ss`: the seconds from some fixed time, or nil for a text that does not fit.
module _ (date_from_string : List ℕ → Option ℕ) where
  unfoldable pub time_for_text : List ℕ → ℕ
  time_for_text [] = 0
  time_for_text (c ∷ text) =
      interval_since (date_from_string (c ∷ text)) (date_from_string midnight_text)

  unfoldable pub time_for_string : Option (List ℕ) → ℕ
  time_for_string none = 0
  time_for_string (some text) = time_for_text text

-- The state that a player names. A question is answered with the state of the text in upper case, a
-- notice with that of the text as it stands.
unfoldable pub play_state_of : String → PlayState
play_state_of state =
    if text_eq state "STOPPED"
    then finished
    else if text_eq state "PAUSED_PLAYBACK"
    then paused
    else if text_eq state "PAUSED_RECORDING"
    then unknown_state
    else if text_eq state "PLAYING"
    then playing
    else if text_eq state "RECORDING"
    then unknown_state
    else if text_eq state "TRANSITIONING"
    then idle
    else if text_eq state "NO_MEDIA_PRESENT"
    then idle
    else unknown_state

-- What the success block of `getPlayStateWithSuccess:failure:` gets; nil in upper case is nil.
unfoldable pub play_state_answered : (String → String) → Option String → PlayState
play_state_answered uppercase none = unknown_state
play_state_answered uppercase (some state) = play_state_of (uppercase state)

-- What that of `subscribePlayStateWithSuccess:failure:` gets, if it is called.
unfoldable pub play_state_told : Option String → Option PlayState
play_state_told none = none
play_state_told (some state) = some (play_state_of state)
