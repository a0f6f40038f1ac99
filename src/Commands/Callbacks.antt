-- ===== src/Commands/Callbacks.antt =====
-- Services/Commands/ServiceSubscription.m: which blocks run when an answer to a subscription arrives.
use connect_sdk_i_os_core.Prelude.{
  ℕ, ◌≡◌, sym, ap, subst, refl, ◌↔◌, ◌⊎◌, inl, inr, true, List, [], ◌∷◌, Option, none, some, ◌==◌,
  Has, Has-append_left, Has-append_right, Has-of_append, Distinct, Distinct-append_one, Bool-cases,
  arith, some_injective,
}
use connect_sdk_i_os_core.Commands.{
  ServiceSubscription, has_call, add_call, calls_of, add_success, add_successes, runs_on_success,
}

-- The block of a subscription runs those that its array holds, each once.
pub record IsInStep (s : ServiceSubscription) : Type 0 where
  pub same : runs_on_success s ≡ calls_of s.success_calls
  pub once : Distinct (runs_on_success s)

has_call_iff : (x : ℕ) (xs : List ℕ) → (has_call x xs ≡ true) ↔ Has x xs
unfolding has_call
has_call_iff x [] = (λ t. ground arith, λ m. absurd m)
has_call_iff x (y ∷ ys) = (
  λ t. elim (Bool-cases (y == x)) [
    | inl e ↦ inl (ground arith)
    | inr e ↦ inr ((has_call_iff x ys).0 (ground arith))
  ],
  elim [ inl e ↦ ground arith | inr m ↦ let r = (has_call_iff x ys).1 m in ground arith ],
)

-- A block that was given is the block, or was there.
Has-add_call :
    (b : Option ℕ) (xs : List ℕ) (x : ℕ) → Has x (add_call b xs) ↔ (Has x xs ⊎ (b ≡ some x))
unfolding add_call
Has-add_call none xs x = (inl, elim [ inl m ↦ m | inr e ↦ cc ])
Has-add_call (some b) xs x = elim (Bool-cases (has_call b xs)) [
  | inl t ↦ rw t (
    inl,
    elim [ inl m ↦ m | inr e ↦ subst (λ z. Has z xs) (some_injective e) ((has_call_iff b xs).0 t) ],
  )
  | inr t ↦ rw t (
    λ m. elim (Has-of_append x xs (b ∷ []) m) [
      | inl k ↦ inl k
      | inr (inl e) ↦ inr (ap some e)
      | inr (inr f) ↦ absurd f
    ],
    elim [
      | inl m ↦ Has-append_left x xs (b ∷ []) m
      | inr e ↦ Has-append_right x xs (b ∷ []) (inl (some_injective e))
    ],
  )
]

Distinct-add_call : (b : Option ℕ) (xs : List ℕ) → Distinct xs → Distinct (add_call b xs)
unfolding add_call
Distinct-add_call none xs h = h
Distinct-add_call (some b) xs h = elim (Bool-cases (has_call b xs)) [
  | inl t ↦ rw t h
  | inr t ↦ rw t (Distinct-append_one xs b h (λ m. cc ((has_call_iff b xs).1 m)))
]

runs_on_success-add_success :
    (s : ServiceSubscription) (b : Option ℕ)
    → IsInStep s
    → runs_on_success (add_success s b) ≡ add_call b (runs_on_success s)
unfolding add_success
runs_on_success-add_success s b h = ap (add_call b) (sym h.same)

add_success-IsInStep :
    (s : ServiceSubscription) (b : Option ℕ) → IsInStep s → IsInStep (add_success s b)
unfolding add_success
add_success-IsInStep s b h = record {
  same = refl;
  once = Distinct-add_call b (calls_of s.success_calls) (subst Distinct h.same h.once);
}

runs_one :
    (s : ServiceSubscription) (b : Option ℕ) (x : ℕ)
    → IsInStep s
    → Has x (runs_on_success (add_success s b)) ↔ (Has x (runs_on_success s) ⊎ (b ≡ some x))
runs_one s b x h =
    subst (λ calls. Has x calls ↔ (Has x (runs_on_success s) ⊎ (b ≡ some x)))
      (sym (runs_on_success-add_success s b h)) (Has-add_call b (runs_on_success s) x)

given_first :
    {X Y Z : Type 0} (b : Option ℕ) (bs : List (Option ℕ)) (x : ℕ)
    → X ↔ (Y ⊎ Has (some x) bs)
    → Y ↔ (Z ⊎ (b ≡ some x))
    → X ↔ (Z ⊎ Has (some x) (b ∷ bs))
given_first b bs x (f, f') (g, g') = (
  λ m. elim (f m) [
    | inl y ↦ elim (g y) [ inl z ↦ inl z | inr e ↦ inr (inl e) ]
    | inr k ↦ inr (inr k)
  ],
  λ m. elim m [
    | inl z ↦ f' (inl (g' (inl z)))
    | inr (inl e) ↦ f' (inl (g' (inr e)))
    | inr (inr k) ↦ f' (inr k)
  ],
)

-- Behind any number of blocks given to `addSuccess:`, an answer runs each block that was given or ran
-- before, no other, and none of them twice.
pub add_successes-runs :
    (s : ServiceSubscription) (blocks : List (Option ℕ))
    → IsInStep s
    → IsInStep (add_successes s blocks)
      × ((x : ℕ)
          → Has x (runs_on_success (add_successes s blocks))
            ↔ (Has x (runs_on_success s) ⊎ Has (some x) blocks))
unfolding add_successes
add_successes-runs s [] h = (h, λ x. (inl, elim [ inl m ↦ m | inr b ↦ absurd b ]))
add_successes-runs s (b ∷ bs) h =
    let (step, rest) = add_successes-runs (add_success s b) bs (add_success-IsInStep s b h) in
    (step, λ x. given_first b bs x (rest x) (runs_one s b x h))
