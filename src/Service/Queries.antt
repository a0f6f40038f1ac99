-- ===== src/Service/Queries.antt =====
-- What `hasCapability:` of Services/DeviceService.m answers.
use connect_sdk_i_os_core.Prelude.{
  ℕ, String, ◌≡◌, sym, ◌∙◌, refl, subst, Option-cases, ◌∷◌, ◌↔◌, ◌≢◌, Bool, true, List, [], Option,
  none, some, is_set, any, codes, range_of_string, substring_to_index, contains_object,
  contains_object_iff, Has, SameSet, any-SameSet, any_of, any_witness, Bool-cases, inl, inr,
  not-Has, contains-of_not-Has, contains_object-of_Has,
}
use connect_sdk_i_os_core.Prelude.Occurrences.{Occurs, range_of_string_iff}
use connect_sdk_i_os_core.Service.{has_capability}

-- Where the marker `.Any` stands in a capability.
abbrev pub any_range : String → Option ℕ
any_range c = range_of_string (codes ".Any") (codes c)

-- A capability without the marker.
abbrev pub IsPlain : String → Type 0
IsPlain c = any_range c ≡ none

-- What stands before the marker at `i`.
abbrev pub stem : ℕ → String → List ℕ
stem i c = substring_to_index i (codes c)

-- On a capability without `.Any` the query is membership.
pub has_capability_plain :
    (own : List String) (c : String) → IsPlain c → (has_capability own c ≡ true) ↔ Has c own
unfolding has_capability
has_capability_plain own c h = rw (h, has_capability) (contains_object_iff c own)

-- On a capability with the marker at `i` the query is whether the part before it is not empty and
-- occurs in an item.
pub has_capability_any :
    (own : List String) (c : String) (i : ℕ)
    → any_range c ≡ some i
    → (has_capability own c ≡ true)
      ↔ ((item : String) × Has item own × (stem i c ≢ []) × Occurs (stem i c) (codes item))
unfolding has_capability
has_capability_any own c i h = rw (h, has_capability) (there, back)
  where
    test : String → Bool
    test = λ item. is_set (range_of_string (stem i c) (codes item))

    there :
        any test own ≡ true
        → (item : String) × Has item own × (stem i c ≢ []) × Occurs (stem i c) (codes item)
    there t =
        let (item, m, e) = any_witness test own t in
        let (ne, o) = (range_of_string_iff (stem i c) (codes item)).0 e in (item, m, ne, o)

    back :
        (item : String) × Has item own × (stem i c ≢ []) × Occurs (stem i c) (codes item)
        → any test own ≡ true
    back (item, m, ne, o) =
        any_of test own item m ((range_of_string_iff (stem i c) (codes item)).1 (ne, o))

contains_object-SameSet :
    (c : String) (xs ys : List String) → SameSet xs ys → contains_object c xs ≡ contains_object c ys
contains_object-SameSet c xs ys same = elim (Bool-cases (contains_object c xs)) [
  | inl h ↦ h ∙ sym (contains_object-of_Has c ys ((same c).0 ((contains_object_iff c xs).0 h)))
  | inr h ↦ h ∙ sym (contains-of_not-Has c ys (λ m. not-Has c xs h ((same c).1 m)))
]

-- The answer depends on which capabilities are listed, not on their order or number.
pub has_capability-SameSet :
    (xs ys : List String) (c : String) → SameSet xs ys → has_capability xs c ≡ has_capability ys c
unfolding has_capability
has_capability-SameSet xs ys c same =
    elim (any_range c)
      as (λ o.
        elim o [
          | none ↦ contains_object c xs
          | some i ↦ any (λ item. is_set (range_of_string (stem i c) (codes item))) xs
        ]
        ≡ elim o [
          | none ↦ contains_object c ys
          | some i ↦ any (λ item. is_set (range_of_string (stem i c) (codes item))) ys
        ]) [
          | none ↦ contains_object-SameSet c xs ys same
          | some i ↦
              any-SameSet (λ item. is_set (range_of_string (stem i c) (codes item))) xs ys same
        ]

-- The answer is YES exactly if it is on one of the items alone.
pub has_capability_one :
    (own : List String) (c : String)
    → (has_capability own c ≡ true)
      ↔ ((item : String) × Has item own × (has_capability (item ∷ []) c ≡ true))
has_capability_one own c = elim (Option-cases (any_range c)) [
  | inl p ↦ (
    λ t. (c, (has_capability_plain own c p).0 t, (has_capability_plain (c ∷ []) c p).1 (inl refl)),
    λ (item, m, t). elim ((has_capability_plain (item ∷ []) c p).0 t) [
      | inl e ↦ (has_capability_plain own c p).1 (subst (λ y. Has y own) e m)
      | inr b ↦ absurd b
    ],
  )
  | inr (i, p) ↦ (
    λ t.
        let (item, m, r, o) = (has_capability_any own c i p).0 t in
        (item, m, (has_capability_any (item ∷ []) c i p).1 (item, inl refl, r, o)),
    λ (item, m, t).
        let (x, n, r, o) = (has_capability_any (item ∷ []) c i p).0 t in
        (has_capability_any own c i p).1
          (x, elim n [ inl e ↦ subst (λ y. Has y own) e m | inr b ↦ absurd b ], r, o),
  )
]
