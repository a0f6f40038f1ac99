-- ===== src/Prelude/Texts.antt =====
-- NSString: texts are compared as wholes by `==` of the library, and searched by code units.
-- A searched text is ASCII, so its code units are its code points and the search is literal.
use Prim.Native.Nat.{ℕ, zero, suc, ◌-◌}
use Prim.Native.Char.{code}
use Prim.Native.String.{String}
use mathlib.Core.Path.{◌≡◌, refl}
use mathlib.Core.Logic.{◌↔◌}
use mathlib.Core.Bool.{Bool, true, false, ◌&&◌, ◌||◌}
use mathlib.Core.Option.{Option, none, some}
use mathlib.Core.List.{List, [], ◌∷◌, map}
use text.Mathlib.Text.{◌==◌}
use text.Mathlib.TextEquality.{eq_iff}
use connect_sdk_i_os_core.Prelude.Tests.{leb, if◌then◌else◌, ◌>>=◌, ◌==◌ as nat_beq}

-- `isEqualToString:`, on receivers that are not nil.
unfoldable pub text_eq : String → String → Bool
text_eq a b = a == b

pub text_eq_iff : (a b : String) → (text_eq a b ≡ true) ↔ (a ≡ b)
unfolding text_eq
text_eq_iff a b = eq_iff a b

pub text_eq_refl : (a : String) → text_eq a a ≡ true
text_eq_refl a = (text_eq_iff a a).1 refl

-- `[a isEqualToString:b]` where either may be nil: a message to nil answers NO, and so does nil.
abbrev pub is_equal_to_string : Option String → Option String → Bool
is_equal_to_string none b = false
is_equal_to_string (some a) none = false
is_equal_to_string (some a) (some b) = text_eq a b

-- The code points of a text.
abbrev pub codes : String → List ℕ
codes String.[] = []
codes (String.◌∷◌ c s) = code c ∷ codes s

-- Whether `p` stands at the front of `s`.
unfoldable pub has_prefix : List ℕ → List ℕ → Bool
has_prefix [] s = true
has_prefix (a ∷ p) [] = false
has_prefix (a ∷ p) (b ∷ s) = nat_beq a b && has_prefix p s

-- `rangeOfString:`: the location of the first occurrence; an empty pattern is not found.
unfoldable pub search_from : ℕ → List ℕ → List ℕ → Option ℕ
search_from i p [] = none
search_from i p (c ∷ s) = if has_prefix p (c ∷ s) then some i else search_from (suc i) p s

unfoldable pub range_of_string : List ℕ → List ℕ → Option ℕ
unfolding search_from has_prefix
range_of_string [] s = none
range_of_string (a ∷ p) s = search_from 0 (a ∷ p) s

-- `substringToIndex:`, within bounds.
unfoldable pub substring_to_index : ℕ → List ℕ → List ℕ
substring_to_index zero s = []
substring_to_index (suc n) [] = []
substring_to_index (suc n) (c ∷ s) = c ∷ substring_to_index n s

-- `uppercaseString`, over ASCII.
unfoldable pub uppercase : List ℕ → List ℕ
uppercase = map (λ c. if leb b'a' c && leb c b'z' then c - 32 else c)

unfoldable pub codes_eq : List ℕ → List ℕ → Bool
codes_eq [] [] = true
codes_eq [] (b ∷ t) = false
codes_eq (a ∷ s) [] = false
codes_eq (a ∷ s) (b ∷ t) = nat_beq a b && codes_eq s t

-- `containsObject:` on an array of texts.
unfoldable pub contains_object : String → List String → Bool
contains_object a [] = false
contains_object a (x ∷ xs) = text_eq x a || contains_object a xs

unfoldable pub drop_units : ℕ → List ℕ → Option (List ℕ)
drop_units zero units = some units
drop_units (suc n) [] = none
drop_units (suc n) (u ∷ units) = drop_units n units

unfoldable pub take_units : ℕ → List ℕ → Option (List ℕ)
take_units zero units = some []
take_units (suc n) [] = none
take_units (suc n) (u ∷ units) = do rest ← take_units n units; some (u ∷ rest)

-- `substringWithRange:` of a text by its UTF-16 units; it raises an exception out of range.
unfoldable pub substring_with_range : ℕ → ℕ → List ℕ → Option (List ℕ)
substring_with_range location count units = do
  rest ← drop_units location units
  take_units count rest
