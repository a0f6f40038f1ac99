-- ===== src/Device/Filing.antt =====
-- Devices/ConnectableDevice.m: `addService:` and `removeServiceWithId:` keep each service filed
-- under its own name, and the newer of two services of one name wins.
use connect_sdk_i_os_core.Prelude.{
  ◌≤◌, ◌<◌, String, ◌≡◌, ◌≢◌, ◌∙◌, sym, subst, refl, ◌⊎◌, inl, inr, Bool, true, List, [], ◌++◌,
  Option, none, some, arith, if◌then◌else◌, ltb, text_eq, text_eq_iff, object_for_key, set_object,
  IsDict, AllEntries, object_for_key-set_object, object_for_key-remove_object, set_object-IsDict,
  remove_object-IsDict, set_object-AllEntries, remove_object-AllEntries, object_for_key-AllEntries,
  Bool-cases, Option-cases, or_else,
}
use connect_sdk_i_os_core.Service.{DeviceService, service_name}
use connect_sdk_i_os_core.Device.{
  Device, DeviceEvent, address, capabilities, remove_service_with_id, adopt, install_service,
  replace_service, drop_connection, add_service, update_consolidated_service_description,
}

abbrev pub Named : String → DeviceService → Type 0
Named k s = service_name s ≡ some k

pub record IsFiled (d : Device) : Type 0 where
  pub keys : IsDict d.services
  pub named : AllEntries Named d.services

pub remove_service_with_id-IsFiled :
    (d : Device) (service_id : Option String)
    → IsFiled d
    → IsFiled (remove_service_with_id d service_id).0
unfolding remove_service_with_id
remove_service_with_id-IsFiled d none h = h
remove_service_with_id-IsFiled d (some k) h = elim (Option-cases (object_for_key k d.services)) [
  | inl e ↦ rw (e, remove_service_with_id) h
  | inr (s, e) ↦
      rw (e, remove_service_with_id)
        (record {
          keys = remove_object-IsDict k d.services h.keys;
          named = remove_object-AllEntries Named k d.services h.named;
        })
]

-- Behind the removal the name is free, and the other services stand as they were.
pub services-remove_service_with_id :
    (d : Device) (k j : String)
    → object_for_key j (remove_service_with_id d (some k)).0.services
      ≡ (if text_eq k j then none else object_for_key j d.services)
unfolding remove_service_with_id
services-remove_service_with_id d k j = elim (Option-cases (object_for_key k d.services)) [
  | inl e ↦ rw (e, remove_service_with_id) (ground (arith, text_eq_iff k j))
  | inr (s, e) ↦ rw (e, remove_service_with_id) (object_for_key-remove_object k j d.services)
]

-- What `install_service` does to the services and the address of a device.
installed :
    (d : Device) (s : DeviceService) (old : List String) (k : String)
    → service_name s ≡ some k
    → (d' : Device) × (events : List DeviceEvent) × (install_service d s old ≡ some (d', events))
      × (d'.services ≡ set_object k (adopt s) d.services)
      × (address d' ≡ or_else s.description.address (address d))
unfolding install_service update_consolidated_service_description
installed d s old k e = rw (e, install_service) (_, _, refl, refl, refl)

-- `addService:` under a name that is free files the service and takes its address over.
pub add_service_free :
    (d : Device) (s : DeviceService) (k : String)
    → Named k s
    → object_for_key k d.services ≡ none
    → (d' : Device) × (events : List DeviceEvent) × (add_service d s ≡ some (d', events))
      × (d'.services ≡ set_object k (adopt s) d.services)
      × (address d' ≡ or_else s.description.address (address d))
unfolding add_service
add_service_free d s k n free =
    let (d', events, r, q, p) = installed d s (capabilities d) k n in
    (d', events, rw (n, add_service) (rw (free, add_service) r), q, p)

adopt-Named : (k : String) (s : DeviceService) → Named k s → Named k (adopt s)
unfolding adopt
adopt-Named k s h = h

pub installed-IsFiled :
    (d d' : Device) (s : DeviceService) (k : String)
    → Named k s
    → IsFiled d
    → d'.services ≡ set_object k (adopt s) d.services
    → IsFiled d'
installed-IsFiled d d' s k n h e = record {
  keys = rw e (set_object-IsDict k (adopt s) d.services h.keys);
  named = rw e (set_object-AllEntries Named k (adopt s) d.services (adopt-Named k s n) h.named);
}

-- What `addService:` of a service of the name `k` leaves: the services of `d`, or those with `s`
-- under its name.
abbrev pub Adds : Device → DeviceService → String → Device → Type 0
Adds d s k d' =
    (object_for_key k d'.services ≡ some (adopt s))
    × ((j : String) → j ≢ k → object_for_key j d'.services ≡ object_for_key j d.services)

installed-Adds :
    (d d' : Device) (s : DeviceService) (k : String)
    → d'.services ≡ set_object k (adopt s) d.services
    → Adds d s k d'
installed-Adds d d' s k e = (
  rw (e, object_for_key-set_object, (text_eq_iff k k).1 refl),
  λ j ne.
      rw e (ground (arith, object_for_key-set_object k j (adopt s) d.services, text_eq_iff k j)),
)

replaced :
    (d : Device) (s x : DeviceService) (k : String)
    → Named k s
    → Named k x
    → IsFiled d
    → (d' : Device) × (events : List DeviceEvent) × (replace_service d x s ≡ some (d', events))
      × IsFiled d'
      × Adds d s k d'
unfolding replace_service
replaced d s x k n own h =
    let d₁ = (remove_service_with_id d (some k)).0 in
    let filed = remove_service_with_id-IsFiled d (some k) h in
    let (d', events, r, q, _) = installed d₁ s (capabilities d) k n in
    let (here, others) = installed-Adds d₁ d' s k q in
    (
      d',
      drop_connection x ++ ((remove_service_with_id d (some k)).1 ++ events),
      rw (own, replace_service) (rw r),
      installed-IsFiled d₁ d' s k n filed q,
      (here, λ j ne. others j ne ∙ (services-remove_service_with_id d k j ∙ other j ne)),
    )
  where
    other :
        (j : String)
        → j ≢ k
        → (if text_eq k j then none else object_for_key j d.services) ≡ object_for_key j d.services
    other j ne = ground (arith, text_eq_iff k j)

-- A service filed under the name, if there is one, was detected earlier than `s`.
abbrev pub IsNewer : DeviceService → Option DeviceService → Type 0
IsNewer s none = Unit
IsNewer s (some existing) = existing.description.last_detection < s.description.last_detection

-- `addService:` of a service with a name raises no exception. Where a service of that name is filed
-- that was detected no earlier, it keeps the device as it is, without a notice; where none is, or one
-- that was detected earlier, it files the service under its name and leaves the services of other
-- names. The device stays filed.
pub add_service_lem :
    (d : Device) (s : DeviceService) (k : String)
    → Named k s
    → IsFiled d
    → (d' : Device) × (events : List DeviceEvent) × (add_service d s ≡ some (d', events))
      × IsFiled d'
      × (((existing : DeviceService) × (object_for_key k d.services ≡ some existing)
            × (s.description.last_detection ≤ existing.description.last_detection)
            × (d' ≡ d)
            × (events ≡ []))
          ⊎ (IsNewer s (object_for_key k d.services) × Adds d s k d'))
unfolding add_service
add_service_lem d s k n h = elim (Option-cases (object_for_key k d.services)) [
  | inl e ↦
      let (d', events, r, q, _) = installed d s (capabilities d) k n in
      (
        d',
        events,
        rw (n, add_service) (rw (e, add_service) r),
        installed-IsFiled d d' s k n h q,
        inr (subst (IsNewer s) (sym e) tt, installed-Adds d d' s k q),
      )
  | inr (x, e) ↦ elim (Bool-cases (newer x)) [
    | inl t ↦
        let own = object_for_key-AllEntries Named k x d.services h.named e in
        let (d', events, r, filed, adds) = replaced d s x k n own h in
        (
          d',
          events,
          rw (n, add_service) (rw (e, add_service) (rw t r)),
          filed,
          inr (subst (IsNewer s) (sym e) (earlier x t), adds),
        )
    | inr t ↦ (
      d,
      [],
      rw (n, add_service) (rw (e, add_service) (rw t refl)),
      h,
      inl (x, e, ground arith, refl, refl),
    )
  ]
]
  where
    newer : DeviceService → Bool
    newer = λ x. ltb x.description.last_detection s.description.last_detection

    earlier :
        (x : DeviceService)
        → newer x ≡ true
        → x.description.last_detection < s.description.last_detection
    earlier x t = ground arith
