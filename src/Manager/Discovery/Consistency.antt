-- ===== src/Manager/Discovery/Consistency.antt =====
-- Discovery/DiscoveryManager.m: the device lists are consistent behind every report of a provider.
use connect_sdk_i_os_core.Prelude.{
  ℕ, ◌≤◌, ◌<◌, String, ◌≡◌, ◌≢◌, ◌∙◌, sym, ap, refl, subst, ◌⊎◌, inl, inr, true, false, List,
  Option, none, some, some_injective, arith, text_eq, text_eq_iff, object_for_key, Bool-cases,
}
use connect_sdk_i_os_core.Device.{Device}
use connect_sdk_i_os_core.Manager.{
  Manager, ManagerEvent, Outcome, put, is_compatible, handle_device_add, handle_device_update,
}
use connect_sdk_i_os_core.Manager.Listing.{
  expected, IsBehind, Lists, handle_device_add-Lists, handle_device_update-Lists,
}
use connect_sdk_i_os_core.Manager.Services.Keeps.{IsServed}
use connect_sdk_i_os_core.Manager.Discovery.{settle}

-- Each listed device is an object that was made, has a service, and is at the address that it is
-- listed for; and the compatible devices are those of them that pass the filters.
pub record IsConsistent (m : Manager) : Type 0 where
  pub served :
      (a : String) (r : ℕ) → object_for_key a m.all_devices ≡ some r → IsServed a (m.objects r)
  pub made : (a : String) (r : ℕ) → object_for_key a m.all_devices ≡ some r → r < m.fresh
  pub exact : (a : String) → object_for_key a m.compatible_devices ≡ expected m a

-- No object is listed for two addresses.
pub listed_once :
    (m : Manager) (a b : String) (r : ℕ)
    → IsConsistent m
    → object_for_key a m.all_devices ≡ some r
    → object_for_key b m.all_devices ≡ some r
    → b ≡ a
listed_once m a b r c e f =
    let p = (c.served a r e).at_address in
    let q = (c.served b r f).at_address in some_injective (sym q ∙ p)

-- A manager in which only the object `r`, listed for no address but `a`, may differ from a
-- consistent one, and which is listed for `a`.
pub record IsTouched (m : Manager) (a : String) (r : ℕ) : Type 0 where
  pub here : object_for_key a m.all_devices ≡ some r
  pub served_here : IsServed a (m.objects r)
  pub served :
      (b : String) (x : ℕ)
      → b ≢ a
      → object_for_key b m.all_devices ≡ some x
      → IsServed b (m.objects x)
  pub made : (b : String) (x : ℕ) → object_for_key b m.all_devices ≡ some x → x < m.fresh
  pub exact : (b : String) → b ≢ a → object_for_key b m.compatible_devices ≡ expected m b
  pub shown :
      (object_for_key a m.compatible_devices ≡ none)
      ⊎ (object_for_key a m.compatible_devices ≡ some r)

-- The handler raises no exception and leaves a consistent manager.
abbrev pub Settles : Outcome → Type 0
Settles o =
    (m' : Manager) × (events : List ManagerEvent) × (o ≡ some (m', events)) × IsConsistent m'

module _ (m : Manager) (a : String) (r : ℕ) (t : IsTouched m a r) where
  pub IsServed-all :
      (b : String) (x : ℕ) → object_for_key b m.all_devices ≡ some x → IsServed b (m.objects x)
  IsServed-all b x e = elim (Bool-cases (text_eq b a)) [
    | inl same ↦
        let p : b ≡ a = (text_eq_iff b a).0 same in
        let q : r ≡ x =
          some_injective (sym t.here ∙ subst (λ y. object_for_key y m.all_devices ≡ some x) p e) in
        subst (λ y. IsServed y (m.objects x)) (sym p)
          (subst (λ y. IsServed a (m.objects y)) q t.served_here)
    | inr other ↦ t.served b x (ground (arith, text_eq_iff b a)) e
  ]

  pub behind : IsBehind m a r
  behind = record {
    filed = λ b x e. (IsServed-all b x e).at_address;
    here = t.here;
    exact = t.exact;
    shown = t.shown;
  }

  pub consistent_of_Lists : (o : Outcome) → Lists m o → Settles o
  consistent_of_Lists o l = (
    l.m',
    l.events,
    l.answer,
    record {
      served = λ b x.
          subst
            (λ (n : Manager). object_for_key b n.all_devices ≡ some x → IsServed b (n.objects x))
            (sym l.rest) (IsServed-all b x);
      made = λ b x.
          subst (λ (n : Manager). object_for_key b n.all_devices ≡ some x → x < n.fresh)
            (sym l.rest) (t.made b x);
      exact = l.listed.exact;
    },
  )

  pub settle-known : Settles (settle m a r false)
  unfolding settle
  settle-known =
      rw t.served_here.served
        (consistent_of_Lists (handle_device_update m r) (handle_device_update-Lists m a r behind))

  pub settle-new : object_for_key a m.compatible_devices ≡ none → Settles (settle m a r true)
  unfolding settle
  settle-new absent =
      rw t.served_here.served
        (consistent_of_Lists (handle_device_add m r) (handle_device_add-Lists m a r behind absent))

-- `n` differs from `m` at the object `r`, which `m` lists for no address but `a`, and in what is
-- listed for `a`.
pub record Differs (m n : Manager) (a : String) (r : ℕ) : Type 0 where
  pub same : (x : ℕ) → x ≢ r → n.objects x ≡ m.objects x
  pub listed :
      (b : String) → b ≢ a → object_for_key b n.all_devices ≡ object_for_key b m.all_devices
  pub shown :
      (b : String)
      → b ≢ a
      → object_for_key b n.compatible_devices ≡ object_for_key b m.compatible_devices
  pub filters : n.capability_filters ≡ m.capability_filters
  pub grown : m.fresh ≤ n.fresh
  pub unlisted : (b : String) → b ≢ a → object_for_key b m.all_devices ≢ some r

module _ (m n : Manager) (a : String) (r : ℕ) (c : IsConsistent m) (f : Differs m n a r) where
  IsServed-elsewhere :
      (b : String) (x : ℕ)
      → b ≢ a
      → object_for_key b n.all_devices ≡ some x
      → IsServed b (n.objects x) × (x < n.fresh)
  IsServed-elsewhere b x ne e =
      let was : object_for_key b m.all_devices ≡ some x = sym (f.listed b ne) ∙ e in
      let other : x ≢ r = λ q. f.unlisted b ne (was ∙ ap some q) in
      let old = c.made b x was in
      let more = f.grown in
      (subst (λ (d : Device). IsServed b d) (sym (f.same x other)) (c.served b x was), omega arith)

  exact_elsewhere : (b : String) → b ≢ a → object_for_key b n.compatible_devices ≡ expected n b
  exact_elsewhere b ne = f.shown b ne ∙ (c.exact b ∙ alike (object_for_key b m.all_devices) refl)
    where
      alike : (o : Option ℕ) → object_for_key b m.all_devices ≡ o → expected m b ≡ expected n b
      alike none e = rw (e, expected) (rw (f.listed b ne ∙ e, expected) refl)
      alike (some x) e =
          let other : x ≢ r = λ q. f.unlisted b ne (e ∙ ap some q) in
          rw (e, expected) (rw (f.listed b ne ∙ e, expected) (rw (f.same x other, f.filters) refl))

  pub touched :
      object_for_key a n.all_devices ≡ some r
      → IsServed a (n.objects r)
      → r < n.fresh
      → (object_for_key a n.compatible_devices ≡ none)
        ⊎ (object_for_key a n.compatible_devices ≡ some r)
      → IsTouched n a r
  touched here served_here young shown = record {
    here = here;
    served_here = served_here;
    served = λ b x ne e. (IsServed-elsewhere b x ne e).0;
    made = λ b x e. elim (Bool-cases (text_eq b a)) [
      | inl s ↦
          let p : b ≡ a = (text_eq_iff b a).0 s in
          let q : r ≡ x =
            some_injective (sym here ∙ subst (λ y. object_for_key y n.all_devices ≡ some x) p e) in
          subst (λ y. y < n.fresh) q young
      | inr s ↦ (IsServed-elsewhere b x (ground (arith, text_eq_iff b a)) e).1
    ];
    exact = exact_elsewhere;
    shown = shown;
  }

  -- With nothing listed for `a`, the manager is consistent.
  pub vacated :
      object_for_key a n.all_devices ≡ none
      → object_for_key a n.compatible_devices ≡ none
      → IsConsistent n
  vacated gone hidden = record {
    served = λ b x e. (IsServed-elsewhere b x (away b x e) e).0;
    made = λ b x e. (IsServed-elsewhere b x (away b x e) e).1;
    exact = λ b. elim (Bool-cases (text_eq b a)) [
      | inl s ↦
          subst (λ y. object_for_key y n.compatible_devices ≡ expected n y)
            (sym ((text_eq_iff b a).0 s)) (hidden ∙ (rw (gone, expected) refl))
      | inr s ↦ exact_elsewhere b (ground (arith, text_eq_iff b a))
    ];
  }
    where
      away : (b : String) (x : ℕ) → object_for_key b n.all_devices ≡ some x → b ≢ a
      away b x e p = cc (sym gone ∙ subst (λ y. object_for_key y n.all_devices ≡ some x) p e)

pub unlisted_elsewhere :
    (m : Manager) (a : String) (r : ℕ)
    → IsConsistent m
    → object_for_key a m.all_devices ≡ some r
    → (b : String) → b ≢ a
    → object_for_key b m.all_devices ≢ some r
unlisted_elsewhere m a r c e b ne f = ne (listed_once m a b r c e f)

pub put_same :
    (m : Manager) (r : ℕ) (d : Device) (x : ℕ) → x ≢ r → (put m r d).objects x ≡ m.objects x
put_same m r d x ne = ground arith

pub put_here : (m : Manager) (r : ℕ) (d : Device) → (put m r d).objects r ≡ d
put_here m r d = ground arith

pub shown_at :
    (m : Manager) (a : String) (r : ℕ)
    → IsConsistent m
    → object_for_key a m.all_devices ≡ some r
    → (object_for_key a m.compatible_devices ≡ none)
      ⊎ (object_for_key a m.compatible_devices ≡ some r)
shown_at m a r c e = elim (Bool-cases (is_compatible m r)) [
  | inl t ↦ inr (c.exact a ∙ (rw (e, expected) (rw t refl)))
  | inr t ↦ inl (c.exact a ∙ (rw (e, expected) (rw t refl)))
]

pub hidden_at :
    (m : Manager) (a : String)
    → IsConsistent m
    → object_for_key a m.all_devices ≡ none
    → object_for_key a m.compatible_devices ≡ none
hidden_at m a c e = c.exact a ∙ (rw (e, expected) refl)

-- A listed device that is replaced at its address.
pub put-Differs :
    (m : Manager) (a : String) (r : ℕ) (d : Device)
    → IsConsistent m
    → object_for_key a m.all_devices ≡ some r
    → Differs m (put m r d) a r
put-Differs m a r d c e = record {
  same = put_same m r d;
  listed = λ b ne. refl;
  shown = λ b ne. refl;
  filters = refl;
  grown = omega arith;
  unlisted = unlisted_elsewhere m a r c e;
}

pub put-IsTouched :
    (m : Manager) (a : String) (r : ℕ) (d : Device)
    → IsConsistent m
    → object_for_key a m.all_devices ≡ some r
    → IsServed a d
    → IsTouched (put m r d) a r
put-IsTouched m a r d c e s =
    touched m (put m r d) a r c (put-Differs m a r d c e) e
      (subst (λ y. IsServed a y) (sym (put_here m r d)) s) (c.made a r e) (shown_at m a r c e)
