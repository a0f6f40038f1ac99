-- ===== src/Service/Changes.antt =====
-- How the capability list of Services/DeviceService.m changes, and what the delegate is told.
pub mod Single
use mathlib.Core.Bool.{false≢true}
use connect_sdk_i_os_core.Prelude.{
  ℕ, suc, String, ◌≡◌, sym, ◌∙◌, refl, ◌↔◌, ◌≢◌, Bool, true, false, not, List, [], ◌∷◌, ◌++◌, some,
  contains_object, Has, Bool-cases, inl, inr, not-Has, arith, contains-of_not-Has, select,
  Has-select, Has-of_select, text_eq, text_eq_iff, Has-append_left, Has-append_right, Has-of_append,
  ◌⊎◌, subst, range_of_string, search_from,
}
use connect_sdk_i_os_core.Service.{
  DeviceService, Notice, listens, has_capability, without, set_capabilities, accept, add_capability,
  accept_all, add_capabilities, remove_text, remove_while, remove_loop, remove_capability,
}
use connect_sdk_i_os_core.Service.Queries.{IsPlain, has_capability_plain}

Has-without : (c : String) (xs ys : List String) → Has c (without xs ys) ↔ (Has c xs × (¬ Has c ys))
unfolding without
Has-without c xs ys = (there, back)
  where
    test : String → Bool
    test = λ x. not (contains_object x ys)

    there : Has c (select test xs) → Has c xs × (¬ Has c ys)
    there h = let (m, e) = Has-of_select test c xs h in (m, not-Has c ys (ground arith))

    back : Has c xs × (¬ Has c ys) → Has c (select test xs)
    back (m, n) = Has-select test c xs m (let e = contains-of_not-Has c ys n in ground arith)

-- A notice of the capabilities that only the new list has, and of those that only the old list had.
abbrev pub Diff : List String → List String → Notice → Type 0
Diff old new n =
    ((c : String) → Has c n.added ↔ (Has c new × (¬ Has c old)))
    × ((c : String) → Has c n.removed ↔ (Has c old × (¬ Has c new)))

pub without-Diff :
    (old new : List String)
    → Diff old new (record { added = without new old; removed = without old new })
without-Diff old new = (λ c. Has-without c new old, λ c. Has-without c old new)

-- `setCapabilities:` installs the new list, and a delegate that listens is told once of the exact
-- difference of the two lists.
pub set_capabilities-Diff :
    (s : DeviceService) (new : List String)
    → listens s ≡ true
    → (n : Notice) × ((set_capabilities s new).1 ≡ n ∷ [])
      × ((set_capabilities s new).0.capabilities ≡ new)
      × Diff s.capabilities new n
unfolding set_capabilities
set_capabilities-Diff s new h = (
  record { added = without new s.capabilities; removed = without s.capabilities new },
  rw h,
  refl,
  without-Diff s.capabilities new,
)

pub Has-remove_text :
    (x c : String) (xs : List String) → Has x (remove_text c xs) ↔ (Has x xs × (x ≢ c))
unfolding remove_text
Has-remove_text x c xs = (there, back)
  where
    test : String → Bool
    test = λ y. not (text_eq y c)

    there : Has x (select test xs) → Has x xs × (x ≢ c)
    there h = let (m, e) = Has-of_select test x xs h in (m, ground (arith, text_eq_iff x c))

    back : Has x xs × (x ≢ c) → Has x (select test xs)
    back (m, n) = Has-select test x xs m (ground (arith, text_eq_iff x c))

-- On any fuel but none the loop ends after one round, with every equal element taken out.
pub remove_while-once :
    (fuel : ℕ) (c : String) (xs : List String)
    → remove_while (suc fuel) c xs ≡ some (remove_text c xs)
unfolding remove_while
remove_while-once fuel c xs =
    rw (contains-of_not-Has c (remove_text c xs) (λ m. ((Has-remove_text c c xs).0 m).1 refl))

-- The removal loop ends after one round, and leaves the other capabilities.
pub remove_loop_lem : (c : String) (xs : List String) → remove_loop c xs ≡ remove_text c xs
unfolding remove_loop
remove_loop_lem c xs = rw (remove_while-once, remove_loop)

-- After `addCapability:` of a plain capability that is not empty, it is listed, and of the other
-- capabilities the same ones are.
pub Has-accept :
    (own : List String) (c : String)
    → IsPlain c
    → c ≢ ""
    → (x : String) → Has x (accept own c) ↔ (Has x own ⊎ (c ≡ x))
unfolding accept
Has-accept own c plain ne x = elim (Bool-cases (has_capability own c)) [
  | inl t ↦
      rw (empty, t)
        (
          inl,
          λ o. elim o [
            | inl m ↦ m
            | inr e ↦ subst (λ y. Has y own) e ((has_capability_plain own c plain).0 t)
          ],
        )
  | inr t ↦
      rw (empty, t)
        (
          λ m. elim (Has-of_append x own (c ∷ []) m) [
            | inl l ↦ inl l
            | inr (inl e) ↦ inr e
            | inr (inr b) ↦ absurd b
          ],
          λ o. elim o [
            | inl m ↦ Has-append_left x own (c ∷ []) m
            | inr e ↦ Has-append_right x own (c ∷ []) (inl e)
          ],
        )
]
  where
    empty : text_eq c "" ≡ false
    empty = ground (arith, text_eq_iff c "")

abbrev pub AllPlain : List String → Type 0
AllPlain [] = Unit
AllPlain (c ∷ cs) = IsPlain c × (c ≢ "") × AllPlain cs

Has-accept_all :
    (own cs : List String)
    → AllPlain cs
    → (x : String) → Has x (accept_all own cs) ↔ (Has x own ⊎ Has x cs)
unfolding accept_all
Has-accept_all own [] h x = (inl, λ o. elim o [ inl m ↦ m | inr b ↦ absurd b ])
Has-accept_all own (c ∷ cs) (plain, ne, rest) x = (
  λ m. elim ((Has-accept_all (accept own c) cs rest x).0 m) [
    | inl k ↦ elim ((Has-accept own c plain ne x).0 k) [ inl l ↦ inl l | inr e ↦ inr (inl e) ]
    | inr k ↦ inr (inr k)
  ],
  λ o. (Has-accept_all (accept own c) cs rest x).1 (elim o [
    | inl l ↦ inl ((Has-accept own c plain ne x).1 (inl l))
    | inr (inl e) ↦ inl ((Has-accept own c plain ne x).1 (inr e))
    | inr (inr k) ↦ inr k
  ]),
)

-- After `addCapabilities:` of plain capabilities, none of them empty, the list holds what it held
-- and the capabilities given, and no more.
pub Has-add_capabilities :
    (s : DeviceService) (cs : List String)
    → AllPlain cs
    → (x : String)
    → Has x (add_capabilities s cs).0.capabilities ↔ (Has x s.capabilities ⊎ Has x cs)
unfolding add_capabilities
Has-add_capabilities s cs h x = Has-accept_all s.capabilities cs h x
