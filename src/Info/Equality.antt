-- ===== src/Info/Equality.antt =====
-- Helpers/*Info.h: what `isEqual:` of the information objects decides.
use connect_sdk_i_os_core.Prelude.{
  String, ◌≡◌, ◌∙◌, sym, ap, refl, ◌↔◌, Bool, true, false, ◌&&◌, Option, none, some,
  is_equal_to_string, text_eq_iff, some_injective,
}
use mathlib.Core.Bool.{false≢true}
use connect_sdk_i_os_core.Info.{ChannelInfo, channel_is_equal}

-- Both properties are set, to one text.
abbrev pub BothAre : Option String → Option String → Type 0
BothAre a b = (x : String) × (a ≡ some x) × (b ≡ some x)

pub is_equal_to_string_iff : (a b : Option String) → (is_equal_to_string a b ≡ true) ↔ BothAre a b
is_equal_to_string_iff none b = (λ e. absurd (false≢true e), λ (x, p, q). cc)
is_equal_to_string_iff (some a) none = (λ e. absurd (false≢true e), λ (x, p, q). cc)
is_equal_to_string_iff (some a) (some b) = (
  λ e. (b, ap some ((text_eq_iff a b).0 e), refl),
  λ (x, p, q). (text_eq_iff a b).1 (some_injective p ∙ sym (some_injective q)),
)

-- Two conditions that are decided together.
pub &&-iff :
    {P Q : Type 0} (a b : Bool) → (a ≡ true) ↔ P → (b ≡ true) ↔ Q → (a && b ≡ true) ↔ (P × Q)
&&-iff true b p q = (λ e. (p.0 refl, q.0 e), λ (x, y). q.1 y)
&&-iff false b p q = (λ e. absurd (false≢true e), λ (x, y). p.1 x)

-- Two channels are equal exactly if both have a number and a name, and these agree; so a channel
-- without a number or a name is not equal to itself.
pub channel_is_equal_iff :
    (a b : ChannelInfo)
    → (channel_is_equal a b ≡ true) ↔ (BothAre a.number b.number × BothAre a.name b.name)
unfolding channel_is_equal
channel_is_equal_iff a b =
    &&-iff (is_equal_to_string a.number b.number) (is_equal_to_string a.name b.name)
      (is_equal_to_string_iff a.number b.number) (is_equal_to_string_iff a.name b.name)
