-- ===== src/Prelude/Occurrences.antt =====
-- `rangeOfString:` finds the first occurrence, and finds one whenever there is one; and which ranges
-- `substringWithRange:` reads.
use Prim.Native.Nat.{ℕ, zero, suc, ◌+◌, ◌<◌, ◌≤◌}
use mathlib.Core.Path.{◌≡◌, refl, sym, ap, subst}
use mathlib.Core.Logic.{◌↔◌, ◌≢◌, ◌⊎◌, inl, inr}
use mathlib.Core.Bool.{true, false≢true}
use mathlib.Core.Option.{none, some}
use mathlib.Core.List.{List, [], ◌∷◌, ◌++◌}
use native.Mathlib.Omega.{arith}
use connect_sdk_i_os_core.Prelude.Tests.{ltb, Bool-cases, Option-cases, is_set}
use connect_sdk_i_os_core.Prelude.Lists.{length}
use connect_sdk_i_os_core.Prelude.Texts.{
  has_prefix, search_from, range_of_string, substring_to_index, drop_units, take_units,
  substring_with_range,
}

-- `p` stands somewhere in `s`.
abbrev pub Occurs : List ℕ → List ℕ → Type 0
Occurs p s = (before : List ℕ) × (after : List ℕ) × (s ≡ before ++ (p ++ after))

has_prefix-split : (p s : List ℕ) → has_prefix p s ≡ true → (after : List ℕ) × (s ≡ p ++ after)
unfolding has_prefix
has_prefix-split [] s h = (s, refl)
has_prefix-split (a ∷ p) [] h = absurd (false≢true h)
has_prefix-split (a ∷ p) (b ∷ s) h =
    let (after, e) = has_prefix-split p s (ground arith) in (after, ground arith)

has_prefix-append : (p after : List ℕ) → has_prefix p (p ++ after) ≡ true
unfolding has_prefix
has_prefix-append [] after = refl
has_prefix-append (a ∷ p) after = ground (arith, has_prefix-append p after)

search_from-split :
    (i : ℕ) (p s : List ℕ) (j : ℕ)
    → search_from i p s ≡ some j
    → (k : ℕ) × (after : List ℕ) × (j ≡ i + k) × (s ≡ substring_to_index k s ++ (p ++ after))
unfolding search_from substring_to_index
search_from-split i p [] j h = ground arith
search_from-split i p (c ∷ s) j h = elim (Bool-cases (has_prefix p (c ∷ s))) [
  | inl t ↦ let (after, e) = has_prefix-split p (c ∷ s) t in (0, after, ground arith, e)
  | inr t ↦
      let (k, after, e, f) = search_from-split (suc i) p s j (rw t at h) in
      (suc k, after, omega arith, ap (◌∷◌ c) f)
]

search_from-finds :
    (i : ℕ) (p before after : List ℕ)
    → p ≢ []
    → is_set (search_from i p (before ++ (p ++ after))) ≡ true
unfolding search_from
search_from-finds i [] before after h = absurd (h refl)
search_from-finds i (a ∷ p) [] after h = rw (has_prefix-append (a ∷ p) after)
search_from-finds i (a ∷ p) (b ∷ before) after h =
    elim (Bool-cases (has_prefix (a ∷ p) (b ∷ (before ++ (a ∷ p ++ after))))) [
      | inl t ↦ rw t
      | inr t ↦ rw t (search_from-finds (suc i) (a ∷ p) before after h)
    ]

-- A location splits the text there.
pub range_of_string-split :
    (p s : List ℕ) (i : ℕ)
    → range_of_string p s ≡ some i
    → (after : List ℕ) × (s ≡ substring_to_index i s ++ (p ++ after))
unfolding range_of_string
range_of_string-split [] s i h = ground arith
range_of_string-split (a ∷ p) s i h =
    let (k, after, e, f) = search_from-split 0 (a ∷ p) s i h in
    let same : i ≡ k = omega arith in
    (after, subst (λ n. s ≡ substring_to_index n s ++ (a ∷ p ++ after)) (sym same) f)

found :
    (p s : List ℕ) → is_set (range_of_string p s) ≡ true → (i : ℕ) × (range_of_string p s ≡ some i)
found p s h = elim (Option-cases (range_of_string p s)) [
  | inl e ↦ absurd (false≢true (rw e at h))
  | inr (i, e) ↦ (i, e)
]

Occurs-of_found : (p s : List ℕ) → is_set (range_of_string p s) ≡ true → (p ≢ []) × Occurs p s
unfolding range_of_string
Occurs-of_found [] s h = absurd (false≢true h)
Occurs-of_found (a ∷ p) s h =
    let (i, e) = found (a ∷ p) s h in
    let (after, f) = range_of_string-split (a ∷ p) s i e in
    (λ q. cc, (substring_to_index i s, after, f))

found_of_Occurs : (p s : List ℕ) → (p ≢ []) → Occurs p s → is_set (range_of_string p s) ≡ true
unfolding range_of_string
found_of_Occurs [] s h o = absurd (h refl)
found_of_Occurs (a ∷ p) s h (before, after, e) = rw e (search_from-finds 0 (a ∷ p) before after h)

-- The search succeeds exactly on a pattern that is not empty and occurs.
pub range_of_string_iff :
    (p s : List ℕ) → (is_set (range_of_string p s) ≡ true) ↔ ((p ≢ []) × Occurs p s)
range_of_string_iff p s = (Occurs-of_found p s, λ (h, o). found_of_Occurs p s h o)

take_units-cases :
    (n : ℕ) (units : List ℕ)
    → ((length units < n) × (take_units n units ≡ none))
      ⊎ ((n ≤ length units) × ((front : List ℕ) × (take_units n units ≡ some front)))
unfolding take_units
take_units-cases zero units = inr (omega arith, (_, refl))
take_units-cases (suc n) [] = inl (omega arith, refl)
take_units-cases (suc n) (u ∷ units) = elim (take_units-cases n units) [
  | inl (h, e) ↦ inl (omega arith, rw e refl)
  | inr (h, (front, e)) ↦ inr (omega arith, (u ∷ front, rw e refl))
]

-- A range is read exactly if it ends inside the text.
pub substring_with_range-cases :
    (i n : ℕ) (units : List ℕ)
    → ((length units < i + n) × (substring_with_range i n units ≡ none))
      ⊎ ((i + n ≤ length units) × ((t : List ℕ) × (substring_with_range i n units ≡ some t)))
unfolding substring_with_range drop_units
substring_with_range-cases zero n units = elim (take_units-cases n units) [
  | inl (h, e) ↦ inl (omega arith, e)
  | inr (h, r) ↦ inr (omega arith, r)
]
substring_with_range-cases (suc i) n [] = elim (Bool-cases (ltb 0 n)) [
  | inl t ↦ inl (ground arith, refl)
  | inr t ↦ inl (ground arith, refl)
]
substring_with_range-cases (suc i) n (u ∷ units) = elim (substring_with_range-cases i n units) [
  | inl (h, e) ↦ inl (omega arith, e)
  | inr (h, r) ↦ inr (omega arith, r)
]
