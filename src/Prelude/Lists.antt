-- ===== src/Prelude/Lists.antt =====
-- Lists over the native numbers, in the library's names, and Boolean searches.
use Prim.Native.Nat.{ℕ, suc, ◌+◌}
use mathlib.Core.Path.{◌≡◌, refl}
use mathlib.Core.Logic.{◌⊎◌, inl, inr}
use mathlib.Core.Bool.{Bool, true, false, ◌&&◌, ◌||◌, false≢true}
use mathlib.Core.Option.{Option, none, some}
use mathlib.Core.List.{List, [], ◌∷◌, ◌++◌}
use native.Mathlib.Omega.{arith}
use connect_sdk_i_os_core.Prelude.Tests.{if◌then◌else◌, Bool-cases}

module _ {ℓ} {A : Type ℓ} where
  abbrev pub length : List A → ℕ
  length [] = 0
  length (x ∷ xs) = suc (length xs)

  pub length-append : (xs ys : List A) → length (xs ++ ys) ≡ length xs + length ys
  length-append [] ys = omega arith
  length-append (x ∷ xs) ys = omega (arith, length-append xs ys)

  -- Whether an enumeration with `*stop = YES` at the first hit makes a hit.
  unfoldable pub any : (A → Bool) → List A → Bool
  any p [] = false
  any p (x ∷ xs) = p x || any p xs

  -- Whether such an enumeration for a miss makes none.
  unfoldable pub all : (A → Bool) → List A → Bool
  all p [] = true
  all p (x ∷ xs) = p x && all p xs

  -- `filteredArrayUsingPredicate:`.
  unfoldable pub select : (A → Bool) → List A → List A
  select p [] = []
  select p (x ∷ xs) = let rest = select p xs in if p x then x ∷ rest else rest

  -- The first element that passes.
  unfoldable pub find_first : (A → Bool) → List A → Option A
  find_first p [] = none
  find_first p (x ∷ xs) = if p x then some x else find_first p xs

  abbrev pub All {κ} : (A → Type κ) → List A → Type κ
  All P [] = Unit
  All P (x ∷ xs) = P x × All P xs

module _ {A : Type 0} where
  -- Membership as a family that can be matched.
  abbrev pub Has : A → List A → Type 0
  Has a [] = ⊥
  Has a (x ∷ xs) = (x ≡ a) ⊎ Has a xs

  pub any_of : (p : A → Bool) (xs : List A) (a : A) → Has a xs → p a ≡ true → any p xs ≡ true
  unfolding any
  any_of p [] a h e = absurd h
  any_of p (x ∷ xs) a (inl i) e = rw (i, e)
  any_of p (x ∷ xs) a (inr m) e = ground (arith, any_of p xs a m e)

  -- An element that passes, where the enumeration made a hit.
  abbrev pub Hit : (A → Bool) → List A → Type 0
  Hit p xs = (a : A) × Has a xs × (p a ≡ true)

  pub any_witness : (p : A → Bool) (xs : List A) → any p xs ≡ true → Hit p xs
  unfolding any
  any_witness p [] h = absurd (false≢true h)
  any_witness p (x ∷ xs) h = elim (Bool-cases (p x)) [
    | inl e ↦ (x, inl refl, e)
    | inr e ↦ let (a, m, t) = any_witness p xs (rw e at h) in (a, inr m, t)
  ]
