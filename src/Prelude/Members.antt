-- ===== src/Prelude/Members.antt =====
-- Membership in a list against the Boolean searches, and lists as sets.
use mathlib.Core.Path.{◌≡◌, refl, sym, ◌∙◌, subst}
use mathlib.Core.Logic.{◌↔◌, ◌⊎◌, inl, inr}
use mathlib.Core.Bool.{Bool, true, false, false≢true}
use mathlib.Core.List.{List, [], ◌∷◌, ◌++◌}
use Prim.Native.Nat.{ℕ, suc, ◌<◌}
use Prim.Native.String.{String}
use native.Mathlib.Omega.{arith}
use connect_sdk_i_os_core.Prelude.Tests.{Bool-cases, if◌then◌else◌, ◌==◌}
use connect_sdk_i_os_core.Prelude.Lists.{any, all, select, Has, any_of, any_witness}
use connect_sdk_i_os_core.Prelude.Texts.{text_eq, text_eq_iff, contains_object}

-- A test holds of a whole list exactly if it holds of each member.
pub all_iff :
    {A : Type 0} (p : A → Bool) (xs : List A)
    → (all p xs ≡ true) ↔ ((x : A) → Has x xs → p x ≡ true)
unfolding all
all_iff p [] = (λ t x m. absurd m, λ h. refl)
all_iff p (y ∷ ys) = (
  λ t x. elim [
    | inl e ↦ subst (λ z. p z ≡ true) e (ground arith)
    | inr m ↦ (all_iff p ys).0 (ground arith) x m
  ],
  λ h.
      let first = h y (inl refl) in
      let rest = (all_iff p ys).1 (λ x m. h x (inr m)) in ground arith,
)

pub Has-of_contains_object :
    (a : String) (xs : List String) → contains_object a xs ≡ true → Has a xs
unfolding contains_object
Has-of_contains_object a [] h = absurd (false≢true h)
Has-of_contains_object a (x ∷ xs) h = elim (Bool-cases (text_eq x a)) [
  | inl e ↦ inl ((text_eq_iff x a).0 e)
  | inr e ↦ inr (Has-of_contains_object a xs (rw e at h))
]

pub contains_object-of_Has :
    (a : String) (xs : List String) → Has a xs → contains_object a xs ≡ true
unfolding contains_object
contains_object-of_Has a [] h = absurd h
contains_object-of_Has a (x ∷ xs) (inl e) = rw ((text_eq_iff x a).1 e)
contains_object-of_Has a (x ∷ xs) (inr m) = ground (arith, contains_object-of_Has a xs m)

-- `containsObject:` is membership.
pub contains_object_iff : (a : String) (xs : List String) → (contains_object a xs ≡ true) ↔ Has a xs
contains_object_iff a xs = (Has-of_contains_object a xs, contains_object-of_Has a xs)

pub not-Has : (a : String) (xs : List String) → contains_object a xs ≡ false → ¬ Has a xs
not-Has a xs h m = cc (contains_object-of_Has a xs m)

pub contains-of_not-Has :
    (a : String) (xs : List String) → ¬ Has a xs → contains_object a xs ≡ false
contains-of_not-Has a xs h = elim (Bool-cases (contains_object a xs)) [
  | inl e ↦ absurd (h (Has-of_contains_object a xs e))
  | inr e ↦ e
]

module _ {A : Type 0} where
  pub Has-select :
      (p : A → Bool) (a : A) (xs : List A) → Has a xs → p a ≡ true → Has a (select p xs)
  unfolding select
  Has-select p a [] h e = absurd h
  Has-select p a (x ∷ xs) (inl i) e = rw (i, e) (inl refl)
  Has-select p a (x ∷ xs) (inr m) e = elim (Bool-cases (p x)) [
    | inl t ↦ rw t (inr (Has-select p a xs m e))
    | inr t ↦ rw t (Has-select p a xs m e)
  ]

  pub Has-of_select :
      (p : A → Bool) (a : A) (xs : List A) → Has a (select p xs) → Has a xs × (p a ≡ true)
  unfolding select
  Has-of_select p a [] h = absurd h
  Has-of_select p a (x ∷ xs) h = elim (Bool-cases (p x)) [
    | inl t ↦ elim (rw t at h) [
      | inl e ↦ (inl e, subst (λ y. p y ≡ true) e t)
      | inr m ↦ let (n, e) = Has-of_select p a xs m in (inr n, e)
    ]
    | inr t ↦ let (m, e) = Has-of_select p a xs (rw t at h) in (inr m, e)
  ]

  pub Has-append_left : (a : A) (xs ys : List A) → Has a xs → Has a (xs ++ ys)
  Has-append_left a [] ys h = absurd h
  Has-append_left a (x ∷ xs) ys (inl e) = inl e
  Has-append_left a (x ∷ xs) ys (inr m) = inr (Has-append_left a xs ys m)

  pub Has-append_right : (a : A) (xs ys : List A) → Has a ys → Has a (xs ++ ys)
  Has-append_right a [] ys h = h
  Has-append_right a (x ∷ xs) ys h = inr (Has-append_right a xs ys h)

  pub Has-of_append : (a : A) (xs ys : List A) → Has a (xs ++ ys) → Has a xs ⊎ Has a ys
  Has-of_append a [] ys h = inr h
  Has-of_append a (x ∷ xs) ys (inl e) = inl (inl e)
  Has-of_append a (x ∷ xs) ys (inr m) = elim (Has-of_append a xs ys m) [
    | inl l ↦ inl (inr l)
    | inr r ↦ inr r
  ]

  -- The same elements, in whatever order and number.
  abbrev pub SameSet : List A → List A → Type 0
  SameSet xs ys = (a : A) → Has a xs ↔ Has a ys

  -- No element twice.
  abbrev pub Distinct : List A → Type 0
  Distinct [] = Unit
  Distinct (x ∷ xs) = (¬ Has x xs) × Distinct xs

  pub Distinct-append_one :
      (xs : List A) (x : A) → Distinct xs → ¬ Has x xs → Distinct (xs ++ x ∷ [])
  Distinct-append_one [] x d n = (λ m. m, tt)
  Distinct-append_one (y ∷ ys) x (f, d) n = (
    λ m. elim (Has-of_append y ys (x ∷ []) m) [
      | inl k ↦ f k
      | inr (inl e) ↦ n (inl (sym e))
      | inr (inr b) ↦ b
    ],
    Distinct-append_one ys x d (λ m. n (inr m)),
  )

  pub any-SameSet : (p : A → Bool) (xs ys : List A) → SameSet xs ys → any p xs ≡ any p ys
  any-SameSet p xs ys same = elim (Bool-cases (any p xs)) [
    | inl h ↦ h ∙ sym (forward xs ys (λ a m. (same a).0 m) h)
    | inr h ↦ elim (Bool-cases (any p ys)) [
      | inl k ↦ absurd (false≢true (sym h ∙ forward ys xs (λ a m. (same a).1 m) k))
      | inr k ↦ h ∙ sym k
    ]
  ]
    where
      forward :
          (us vs : List A) → ((a : A) → Has a us → Has a vs) → any p us ≡ true → any p vs ≡ true
      forward us vs f h = let (a, m, e) = any_witness p us h in any_of p vs a (f a m) e

-- How often a number stands in a list.
unfoldable pub count : ℕ → List ℕ → ℕ
count r [] = 0
count r (x ∷ xs) = if x == r then suc (count r xs) else count r xs

-- One list is the other in some order.
abbrev pub SameCounts : List ℕ → List ℕ → Type 0
SameCounts xs ys = (r : ℕ) → count r xs ≡ count r ys

pub count-of_Has : (r : ℕ) (xs : List ℕ) → Has r xs → 0 < count r xs
unfolding count
count-of_Has r [] h = absurd h
count-of_Has r (x ∷ xs) (inl e) = ground arith
count-of_Has r (x ∷ xs) (inr m) = ground (arith, count-of_Has r xs m)

pub Has-of_count : (r : ℕ) (xs : List ℕ) → 0 < count r xs → Has r xs
unfolding count
Has-of_count r [] h = absurd (omega arith)
Has-of_count r (x ∷ xs) h = elim (Bool-cases (x == r)) [
  | inl e ↦ inl (ground arith)
  | inr e ↦ inr (Has-of_count r xs (rw e at h))
]

pub Has-SameCounts : (r : ℕ) (xs ys : List ℕ) → SameCounts xs ys → Has r xs → Has r ys
Has-SameCounts r xs ys s m = Has-of_count r ys (omega (arith, s r, count-of_Has r xs m))
