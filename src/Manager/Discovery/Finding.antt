-- ===== src/Manager/Discovery/Finding.antt =====
-- Discovery/DiscoveryManager.m: a service is found.
use mathlib.Core.Bool.{false≢true}
use connect_sdk_i_os_core.Prelude.{
  ℕ, ◌<◌, String, ◌≡◌, ◌≢◌, ◌∙◌, sym, ap, refl, subst, ◌⊎◌, inl, inr, Bool, true, false, [], Option,
  none, some, arith, text_eq_iff, object_for, object_for_key, set_object, remove_object, Bool-cases,
  object_for_key-remove_object, object_for_key-set_object, ◌>>=◌,
}
use connect_sdk_i_os_core.Description.{ServiceDescription}
use connect_sdk_i_os_core.Service.{DeviceService}
use connect_sdk_i_os_core.Device.{Device, has_services, connectable_device_with_description}
use connect_sdk_i_os_core.Device.Filing.{IsFiled}
use connect_sdk_i_os_core.Manager.{Manager, put}
use connect_sdk_i_os_core.Manager.Services.Keeps.{IsServed, add_service_description-Serves}
use connect_sdk_i_os_core.Manager.Discovery.{
  from_store, enlist, detected, extend, settle, find_at, did_find_service,
}
use connect_sdk_i_os_core.Manager.Discovery.Consistency.{
  IsConsistent, Settles, Differs, settle-known, settle-new, put-IsTouched, put_here, hidden_at,
  touched, vacated,
}

stored_of_from_store :
    (m : Manager) (stored : Option ℕ) (r : ℕ) → from_store m stored ≡ some r → stored ≡ some r
unfolding from_store
stored_of_from_store m stored r e = elim (Bool-cases m.use_device_store) [
  | inl t ↦ rw t at e
  | inr t ↦ cc (rw t at e)
]

settle_dropped :
    (x : Manager) (a : String) (r : ℕ) (b : Bool)
    → has_services (x.objects r) ≡ false
    → settle x a r b ≡ some (record x { all_devices = remove_object a x.all_devices }, [])
unfolding settle
settle_dropped x a r b e = rw e

-- What the handler relies on. The service id of the description is registered, and a device that
-- the store answers is one that was made and has no services, as one that is read from its file,
-- or one that was lost.
pub record IsReported (m : Manager) (d : ServiceDescription) (stored : Option ℕ) : Type 0 where
  pub a : String
  pub k : String
  pub service_class : String
  pub address_set : d.address ≡ some a
  pub name_set : d.service_id ≡ some k
  pub registered : object_for_key k m.device_classes ≡ some service_class
  pub stored_idle : (r : ℕ) → stored ≡ some r → ((m.objects r).services ≡ []) × (r < m.fresh)

IsFiled-empty : (d : Device) → d.services ≡ [] → IsFiled d
IsFiled-empty d e = record { keys = rw e tt; named = rw e tt }

has_services-empty : (d : Device) → d.services ≡ [] → has_services d ≡ false
unfolding has_services
has_services-empty d e = rw e refl

module _ (instantiate : String → Option String → DeviceService) (m : Manager)
    (d : ServiceDescription) (stored : Option ℕ) (now : ℕ) (config : Option (Option String))
    (c : IsConsistent m) (h : IsReported m d stored) where
  -- What `extend` makes of the object `r` of a manager with the same classes.
  abbrev Extends : Manager → ℕ → Option Device → Type 0
  Extends n r o =
      (device : Device) × (o ≡ some device)
      × (IsServed h.a device ⊎ (device ≡ detected n h.a now (n.objects r)))

  extended :
      (n : Manager) (r : ℕ)
      → n.device_classes ≡ m.device_classes
      → IsFiled (n.objects r)
      → Extends n r (extend instantiate n h.a d config now r)
  unfolding extend
  extended n r same f =
      rw (class_of h.name_set)
        (elim (add_service_description-Serves instantiate d h.a h.k h.service_class h.address_set
          h.name_set (from_store n config) (detected n h.a now (n.objects r)) filed) [
            | inl (_, e) ↦ (_, e, inr refl)
            | inr (device, e, s) ↦ (device, e, inl s)
          ])
    where
      class_of :
          d.service_id ≡ some h.k → object_for d.service_id n.device_classes ≡ some h.service_class
      class_of e = simp (e, same) h.registered

      filed : IsFiled (detected n h.a now (n.objects r))
      filed = unfold detected in record { keys = f.keys; named = f.named }

  detected-IsServed :
      (n : Manager) (device : Device)
      → IsServed h.a device
      → IsServed h.a (detected n h.a now device)
  unfolding detected has_services
  detected-IsServed n device s = record {
    served = s.served;
    filed = record { keys = s.filed.keys; named = s.filed.named };
    at_address = s.at_address;
  }

  find_known :
      (r : ℕ)
      → object_for_key h.a m.all_devices ≡ some r
      → Settles (
          extend instantiate m h.a d config now r >>= λ device. settle (put m r device) h.a r false)
  find_known r e =
      let (device, answer, how) = extended m r refl (c.served h.a r e).filed in
      rw answer (
        settle-known (put m r device) h.a r (
          put-IsTouched m h.a r device c e (elim how [
            | inl s ↦ s
            | inr q ↦
                subst (λ y. IsServed h.a y) (sym q)
                  (detected-IsServed m (m.objects r) (c.served h.a r e))
          ])))

  -- What holds of the manager `n` in which `r` was enlisted.
  record IsEnlisted (n : Manager) (r : ℕ) : Type 0 where
    here : object_for_key h.a n.all_devices ≡ some r
    young : r < n.fresh
    idle : (n.objects r).services ≡ []
    classes : n.device_classes ≡ m.device_classes
    hides : n.compatible_devices ≡ m.compatible_devices
    differs : (device : Device) → Differs m (put n r device) h.a r

  find_enlisted :
      (n : Manager) (r : ℕ)
      → IsEnlisted n r
      → object_for_key h.a m.all_devices ≡ none
      → Settles
          (extend instantiate n h.a d config now r >>= λ device. settle (put n r device) h.a r true)
  find_enlisted n r l absent =
      let (device, answer, how) = extended n r l.classes (IsFiled-empty (n.objects r) l.idle) in
      rw answer (elim how [
        | inl s ↦
            settle-new (put n r device) h.a r
              (touched m (put n r device) h.a r c (l.differs device) l.here
                (subst (λ y. IsServed h.a y) (sym (put_here n r device)) s) l.young
                (inl (hidden (put n r device) l.hides)))
              (hidden (put n r device) l.hides)
        | inr q ↦ dropped device (
            has_services-empty device
              (subst (λ (y : Device). y.services ≡ []) (sym q) (unfold detected in l.idle)))
      ])
    where
      hidden :
          (x : Manager)
          → x.compatible_devices ≡ m.compatible_devices
          → object_for_key h.a x.compatible_devices ≡ none
      hidden x e = ap (object_for_key h.a) e ∙ hidden_at m h.a c absent

      removed_ne :
          (b : String)
          → b ≢ h.a
          → object_for_key b (remove_object h.a n.all_devices) ≡ object_for_key b n.all_devices
      removed_ne b ne =
          ground (arith, object_for_key-remove_object h.a b n.all_devices, text_eq_iff h.a b)

      dropped :
          (device : Device)
          → has_services device ≡ false
          → Settles (settle (put n r device) h.a r true)
      dropped device none_left = (
        _,
        [],
        settle_dropped (put n r device) h.a r true (rw (put_here n r device) none_left),
        vacated m _ h.a r c
            (record {
              same = (l.differs device).same;
              listed = λ b ne. removed_ne b ne ∙ (l.differs device).listed b ne;
              shown = (l.differs device).shown;
              filters = (l.differs device).filters;
              grown = (l.differs device).grown;
              unlisted = (l.differs device).unlisted;
            })
            (object_for_key-remove_object h.a h.a n.all_devices
              ∙ (rw ((text_eq_iff h.a h.a).1 refl) refl))
            (hidden n l.hides),
      )

  set_elsewhere :
      (r : ℕ) (b : String)
      → b ≢ h.a
      → object_for_key b (set_object h.a r m.all_devices) ≡ object_for_key b m.all_devices
  set_elsewhere r b ne =
      ground (arith, object_for_key-set_object h.a b r m.all_devices, text_eq_iff h.a b)

  enlisted :
      (o : Option ℕ)
      → ((r : ℕ) → o ≡ some r → ((m.objects r).services ≡ []) × (r < m.fresh))
      → IsEnlisted (enlist m h.a d o).0 (enlist m h.a d o).1
  unfolding enlist
  enlisted none idle = record {
    here =
        object_for_key-set_object h.a h.a m.fresh m.all_devices
        ∙ (rw ((text_eq_iff h.a h.a).1 refl) refl);
    young = omega arith;
    idle =
        rw (put_here m m.fresh (connectable_device_with_description d))
          (unfold connectable_device_with_description in refl);
    classes = refl;
    hides = refl;
    differs = λ device. record {
      same = λ x ne. ground arith;
      listed = set_elsewhere m.fresh;
      shown = λ b ne. refl;
      filters = refl;
      grown = omega arith;
      unlisted = λ b ne e. absurd (let young = c.made b m.fresh e in omega arith);
    };
  }
  enlisted (some r) idle = record {
    here =
        object_for_key-set_object h.a h.a r m.all_devices
        ∙ (rw ((text_eq_iff h.a h.a).1 refl) refl);
    young = (idle r refl).1;
    idle = (idle r refl).0;
    classes = refl;
    hides = refl;
    differs = λ device. record {
      same = λ x ne. ground arith;
      listed = set_elsewhere r;
      shown = λ b ne. refl;
      filters = refl;
      grown = omega arith;
      unlisted = λ b ne e.
          false≢true
            (sym (has_services-empty (m.objects r) (idle r refl).0) ∙ (c.served b r e).served);
    };
  }

  find_at-Settles : Settles (find_at instantiate m h.a d stored config now)
  unfolding find_at
  find_at-Settles = go (object_for_key h.a m.all_devices) refl
    where
      asked : (r : ℕ) → from_store m stored ≡ some r → ((m.objects r).services ≡ []) × (r < m.fresh)
      asked r e = h.stored_idle r (stored_of_from_store m stored r e)

      go :
          (o : Option ℕ)
          → object_for_key h.a m.all_devices ≡ o
          → Settles (elim o [
            | none ↦ (do
              let (m', r) = enlist m h.a d (from_store m stored)
              device ← extend instantiate m' h.a d config now r
              settle (put m' r device) h.a r true)
            | some r ↦ (do
              device ← extend instantiate m h.a d config now r
              settle (put m r device) h.a r false)
          ])
      go none e = find_enlisted _ _ (enlisted (from_store m stored) asked) e
      go (some r) e = find_known r e

-- A service that a provider finds, with an address and the id of a registered service, is handled
-- without an exception and leaves the lists consistent: whether the device is known, comes from
-- the store or is new, and whether the service is refused, described anew, replaced or added. A
-- device that the store answers has no services.
pub did_find_service-IsConsistent :
    (instantiate : String → Option String → DeviceService) (m : Manager) (d : ServiceDescription)
    (stored : Option ℕ) (now : ℕ) (config : Option (Option String))
    → IsConsistent m
    → IsReported m d stored
    → Settles (did_find_service instantiate m d stored config now)
unfolding did_find_service
did_find_service-IsConsistent instantiate m d stored now config c h =
    simp h.address_set (find_at-Settles instantiate m d stored now config c h)
