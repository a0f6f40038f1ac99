-- ===== src/Device/Capabilities.antt =====
-- Devices/ConnectableDevice.m: the capabilities of a device are the union of its services'.
use connect_sdk_i_os_core.Prelude.{
  String, ◌≡◌, sym, refl, subst, ◌↔◌, ◌⊎◌, inl, inr, Bool, true, List, [], ◌∷◌, contains_object,
  contains_object_iff, Has, Distinct, Distinct-append_one, Bool-cases, not-Has, Has-append_left,
  Has-append_right, Has-of_append, any_of, any_witness, any,
}
use connect_sdk_i_os_core.Service.{DeviceService, Notice}
use connect_sdk_i_os_core.Service
use connect_sdk_i_os_core.Service.Queries.{has_capability_one}
use connect_sdk_i_os_core.Device.{
  Device, services, collect_one, collect, collect_all, capabilities, has_capability,
}

Has-collect_one :
    (caps : List String) (c x : String) → Has x (collect_one caps c) ↔ (Has x caps ⊎ (c ≡ x))
unfolding collect_one
Has-collect_one caps c x = elim (Bool-cases (contains_object c caps)) [
  | inl t ↦ rw t (
    inl,
    λ o. elim o [
      | inl m ↦ m
      | inr e ↦ subst (λ y. Has y caps) e ((contains_object_iff c caps).0 t)
    ],
  )
  | inr t ↦ rw t (
    λ m. elim (Has-of_append x caps (c ∷ []) m) [
      | inl l ↦ inl l
      | inr (inl e) ↦ inr e
      | inr (inr b) ↦ absurd b
    ],
    λ o. elim o [
      | inl m ↦ Has-append_left x caps (c ∷ []) m
      | inr e ↦ Has-append_right x caps (c ∷ []) (inl e)
    ],
  )
]

Has-collect :
    (caps cs : List String) (x : String) → Has x (collect caps cs) ↔ (Has x caps ⊎ Has x cs)
unfolding collect
Has-collect caps [] x = (inl, λ o. elim o [ inl m ↦ m | inr b ↦ absurd b ])
Has-collect caps (c ∷ cs) x = (
  λ m. elim ((Has-collect (collect_one caps c) cs x).0 m) [
    | inl l ↦ elim ((Has-collect_one caps c x).0 l) [ inl k ↦ inl k | inr e ↦ inr (inl e) ]
    | inr r ↦ inr (inr r)
  ],
  λ o. (Has-collect (collect_one caps c) cs x).1 (elim o [
    | inl l ↦ inl ((Has-collect_one caps c x).1 (inl l))
    | inr (inl e) ↦ inl ((Has-collect_one caps c x).1 (inr e))
    | inr (inr r) ↦ inr r
  ]),
)

Distinct-collect_one :
    (caps : List String) (c : String) → Distinct caps → Distinct (collect_one caps c)
unfolding collect_one
Distinct-collect_one caps c d = elim (Bool-cases (contains_object c caps)) [
  | inl t ↦ rw t d
  | inr t ↦ rw t (Distinct-append_one caps c d (not-Has c caps t))
]

Distinct-collect : (caps cs : List String) → Distinct caps → Distinct (collect caps cs)
unfolding collect
Distinct-collect caps [] d = d
Distinct-collect caps (c ∷ cs) d =
    Distinct-collect (collect_one caps c) cs (Distinct-collect_one caps c d)

-- Some service lists the capability.
abbrev pub Offered : String → List DeviceService → Type 0
Offered c ss = (s : DeviceService) × Has s ss × Has c s.capabilities

Has-collect_all :
    (caps : List String) (ss : List DeviceService) (x : String)
    → Has x (collect_all caps ss) ↔ (Has x caps ⊎ Offered x ss)
unfolding collect_all
Has-collect_all caps [] x = (inl, λ o. elim o [ inl m ↦ m | inr (s, b, _) ↦ absurd b ])
Has-collect_all caps (s ∷ ss) x = (
  λ m. elim ((Has-collect_all (collect caps s.capabilities) ss x).0 m) [
    | inl l ↦ elim ((Has-collect caps s.capabilities x).0 l) [
      | inl k ↦ inl k
      | inr k ↦ inr (s, inl refl, k)
    ]
    | inr (t, n, k) ↦ inr (t, inr n, k)
  ],
  λ o. (Has-collect_all (collect caps s.capabilities) ss x).1 (elim o [
    | inl m ↦ inl ((Has-collect caps s.capabilities x).1 (inl m))
    | inr (t, inl e, k) ↦
        inl (
          (Has-collect caps s.capabilities x).1 (inr (subst (λ y. Has x y.capabilities) (sym e) k)))
    | inr (t, inr n, k) ↦ inr (t, n, k)
  ]),
)

Distinct-collect_all :
    (caps : List String) (ss : List DeviceService) → Distinct caps → Distinct (collect_all caps ss)
unfolding collect_all
Distinct-collect_all caps [] d = d
Distinct-collect_all caps (s ∷ ss) d =
    Distinct-collect_all (collect caps s.capabilities) ss (Distinct-collect caps s.capabilities d)

-- The list holds exactly the capabilities of the services, each of them once.
pub capabilities-Union :
    (d : Device)
    → ((c : String) → Has c (capabilities d) ↔ Offered c (services d)) × Distinct (capabilities d)
unfolding capabilities
capabilities-Union d = (
  λ c. (
    λ m. elim ((Has-collect_all [] (services d) c).0 m) [ inl b ↦ absurd b | inr o ↦ o ],
    λ o. (Has-collect_all [] (services d) c).1 (inr o),
  ),
  Distinct-collect_all [] (services d) tt,
)

-- `hasCapability:` of the device, on a capability with or without the marker, answers what the
-- query of a service would answer on the union.
has_capability-capabilities :
    (d : Device) (c : String)
    → (has_capability d c ≡ true) ↔ (Service.has_capability (capabilities d) c ≡ true)
unfolding has_capability
has_capability-capabilities d c = (there, back)
  where
    test : DeviceService → Bool
    test = λ s. Service.has_capability s.capabilities c

    there : any test (services d) ≡ true → Service.has_capability (capabilities d) c ≡ true
    there t =
        let (s, m, e) = any_witness test (services d) t in
        let (item, n, r) = (has_capability_one s.capabilities c).0 e in
        (has_capability_one (capabilities d) c).1
          (item, ((capabilities-Union d).0 item).1 (s, m, n), r)

    back : Service.has_capability (capabilities d) c ≡ true → any test (services d) ≡ true
    back t =
        let (item, n, r) = (has_capability_one (capabilities d) c).0 t in
        let (s, m, k) = ((capabilities-Union d).0 item).0 n in
        any_of test (services d) s m ((has_capability_one s.capabilities c).1 (item, k, r))
