-- ===== src/Service/Changes/Single.antt =====
-- What the delegate of a service in Services/DeviceService.m is told of one capability that comes
-- or goes.
use mathlib.Core.Bool.{false≢true}
use connect_sdk_i_os_core.Prelude.{
  String, ◌≡◌, sym, ◌∙◌, refl, ◌↔◌, true, false, List, [], ◌∷◌, ◌++◌, Has, Bool-cases, inl, inr,
  arith, text_eq, text_eq_iff, Has-append_left, Has-append_right, Has-of_append, subst,
  range_of_string, search_from,
}
use connect_sdk_i_os_core.Service.{
  DeviceService, Notice, listens, has_capability, add_capability, remove_text, remove_capability,
}
use connect_sdk_i_os_core.Service.Queries.{IsPlain, has_capability_plain}
use connect_sdk_i_os_core.Service.Changes.{Diff, Has-remove_text, remove_loop_lem}

-- What one notice says of a change from `old` to `new`, where there may be no notice.
abbrev pub Told : List String → List String → List Notice → Type 0
Told old new [] = new ≡ old
Told old new (n ∷ []) = Diff old new n
Told old new (n ∷ m ∷ ns) = ⊥

-- A service that listens is told of `addCapability:` exactly when the list changes, and then of the
-- exact difference, whatever the plain capability is.
pub add_capability-Told :
    (s : DeviceService) (c : String)
    → listens s ≡ true
    → IsPlain c
    → Told s.capabilities (add_capability s c).0.capabilities (add_capability s c).1
unfolding add_capability
add_capability-Told s c h plain = elim (Bool-cases (text_eq c "")) [
  | inl t ↦ rw t refl
  | inr t ↦ elim (Bool-cases (has_capability s.capabilities c)) [
    | inl u ↦ rw (t, u) refl
    | inr u ↦
        rw (t, u, h)
          (added u, λ x. (absurd, λ (m, n). n (Has-append_left x s.capabilities (c ∷ []) m)))
  ]
]
  where
    added :
        has_capability s.capabilities c ≡ false
        → (x : String)
        → Has x (c ∷ []) ↔ (Has x (s.capabilities ++ c ∷ []) × (¬ Has x s.capabilities))
    added u x = (
      λ m. elim m [
        | inl e ↦ (
          Has-append_right x s.capabilities (c ∷ []) (inl e),
          λ k. false≢true (
              sym u
              ∙ (has_capability_plain s.capabilities c plain).1
                  (subst (λ y. Has y s.capabilities) (sym e) k)),
        )
        | inr b ↦ absurd b
      ],
      λ (m, n). elim (Has-of_append x s.capabilities (c ∷ []) m) [
        | inl l ↦ absurd (n l)
        | inr r ↦ r
      ],
    )

-- The same of `removeCapability:`.
pub remove_capability-Told :
    (s : DeviceService) (c : String)
    → listens s ≡ true
    → IsPlain c
    → Told s.capabilities (remove_capability s c).0.capabilities (remove_capability s c).1
unfolding remove_capability
remove_capability-Told s c h plain = elim (Bool-cases (text_eq c "")) [
  | inl t ↦ rw t refl
  | inr t ↦ elim (Bool-cases (has_capability s.capabilities c)) [
    | inl u ↦
        rw (t, u, h, remove_loop_lem)
          (λ x. (absurd, λ (m, n). n ((Has-remove_text x c s.capabilities).0 m).0), lost u)
    | inr u ↦ rw (t, u) refl
  ]
]
  where
    lost :
        has_capability s.capabilities c ≡ true
        → (x : String)
        → Has x (c ∷ []) ↔ (Has x s.capabilities × (¬ Has x (remove_text c s.capabilities)))
    lost u x = (
      λ m. elim m [
        | inl e ↦ (
          subst (λ y. Has y s.capabilities) e ((has_capability_plain s.capabilities c plain).0 u),
          λ k. ((Has-remove_text x c s.capabilities).0 k).1 (sym e),
        )
        | inr b ↦ absurd b
      ],
      λ (m, n). elim (Bool-cases (text_eq x c)) [
        | inl e ↦ inl (sym ((text_eq_iff x c).0 e))
        | inr e ↦
            absurd (n ((Has-remove_text x c s.capabilities).1 (m, ground (arith, text_eq_iff x c))))
      ],
    )

empty-IsPlain : IsPlain ""
unfolding range_of_string search_from
empty-IsPlain = refl

-- `removeCapability:` of a capability that matches by the marker `.Any` and is not itself listed
-- tells the delegate that it is gone, and takes nothing out.
pub remove_capability-marker :
    (s : DeviceService) (c : String)
    → listens s ≡ true
    → has_capability s.capabilities c ≡ true
    → ¬ Has c s.capabilities
    → ((x : String) → Has x (remove_capability s c).0.capabilities ↔ Has x s.capabilities)
      × ((remove_capability s c).1 ≡ record { added = []; removed = c ∷ [] } ∷ [])
unfolding remove_capability
remove_capability-marker s c h t n = elim (Bool-cases (text_eq c "")) [
  | inl e ↦ absurd (
      n (
        (has_capability_plain s.capabilities c
            (subst (λ y. IsPlain y) (sym ((text_eq_iff c "").0 e)) empty-IsPlain)).0
          t))
  | inr e ↦
      rw (e, t, h, remove_loop_lem)
        (
          λ x. (
            λ m. ((Has-remove_text x c s.capabilities).0 m).0,
            λ m.
                (Has-remove_text x c s.capabilities).1
                  (m, λ q. n (subst (λ y. Has y s.capabilities) q m)),
          ),
          refl,
        )
]
