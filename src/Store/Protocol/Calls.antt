-- ===== src/Store/Protocol/Calls.antt =====
-- Devices/DefaultConnectableDeviceStore.m: each call of the store keeps the promise of the protocol.
use connect_sdk_i_os_core.Prelude.{
  ℕ, String, ◌≡◌, ◌≢◌, ◌∙◌, sym, ap, subst, refl, inl, inr, false, List, [], ◌∷◌, Option, none,
  some, if◌then◌else◌, IsDict, length, ◌==◌, Bool-cases, Option-cases, text_eq, arith,
}
use connect_sdk_i_os_core.Service.{DeviceService}
use connect_sdk_i_os_core.Device.{Device, services}
use connect_sdk_i_os_core.Store.{StoredDevice, ServiceInfo, Store, device_id, is_old}
use connect_sdk_i_os_core.Store.Lookups.{fresh_record}
use connect_sdk_i_os_core.Store.Contract.{
  StoreCall, adds, updates, removes, clears, Records, view, made_of, effect, perform,
}
use connect_sdk_i_os_core.Store.Refinement.{perform-refines}
use connect_sdk_i_os_core.Store.Protocol.{Cleaned, Changed, IsPromised, HasServices, IsStorable}
use connect_sdk_i_os_core.Store.Protocol.Making.{made_of-IsRecordOf}

fresh_record-Cleaned :
    (max now : ℕ) (o : Option StoredDevice) → Cleaned max now o (fresh_record max now o)
unfolding is_old
fresh_record-Cleaned max now none = refl
fresh_record-Cleaned max now (some r) = elim (Bool-cases (is_old max now r)) [
  | inl t ↦ inl (ground arith, rw t refl)
  | inr t ↦ inr (ground arith, rw t refl)
]

counted : (d : Device) → HasServices d → (length (services d) == 0) ≡ false
counted d h = go (services d) h
  where
    go : (ss : List DeviceService) → ss ≢ [] → (length ss == 0) ≡ false
    go [] n = absurd (n refl)
    go (s ∷ ss) n = ground arith

module _ (info_of : DeviceService → ServiceInfo) (guid : String) (now r : ℕ) (s : Store) where
  abbrev device : Device
  device = s.objects r

  abbrev under : String
  under = device_id guid device

  abbrev cleaned : Option StoredDevice → String → Option StoredDevice
  cleaned o j = fresh_record s.max_store_duration now (if text_eq under j then o else view s j)

  effect-adds :
      (made : StoredDevice)
      → HasServices device
      → made_of info_of under (view s under) device ≡ some made
      → (j : String)
      → effect info_of guid s.max_store_duration now s.objects (adds r) (view s) j
        ≡ cleaned (some made) j
  unfolding effect
  effect-adds made h m j = rw (counted device h) (ap (λ o. cleaned o j) m)

  effect-updates_none :
      HasServices device
      → view s under ≡ none
      → (j : String)
      → effect info_of guid s.max_store_duration now s.objects (updates r) (view s) j ≡ view s j
  unfolding effect
  effect-updates_none h e j = rw (counted device h) (rw e refl)

  effect-updates_some :
      (old made : StoredDevice)
      → HasServices device
      → view s under ≡ some old
      → made_of info_of under (some old) device ≡ some made
      → (j : String)
      → effect info_of guid s.max_store_duration now s.objects (updates r) (view s) j
        ≡ cleaned (some made) j
  unfolding effect
  effect-updates_some old made h e m j = rw (counted device h) (rw e (ap (λ o. cleaned o j) m))

  effect-removes :
      HasServices device
      → (j : String)
      → effect info_of guid s.max_store_duration now s.objects (removes r) (view s) j
        ≡ cleaned none j
  unfolding effect
  effect-removes h j = rw (counted device h) refl

  Changed-of :
      (o : Option StoredDevice) (v' : Records)
      → ((j : String) → v' j ≡ cleaned o j)
      → Changed s.max_store_duration now under o (view s) v'
  Changed-of o v' e = λ j.
      subst (Cleaned s.max_store_duration now (if text_eq under j then o else view s j)) (sym (e j))
        (fresh_record-Cleaned s.max_store_duration now _)

-- On a dictionary of records each call that changes the store returns, where the device has services,
-- those of a device that is stored have identifiers and, for an update, no service is stored under
-- that of the device. What the header promises then holds of the records: a device that is added, or
-- updated while it is stored, has a record with its address, network, times and services, under the
-- name and identifier it was stored with first, and keeps the services it had before; an update of
-- another device changes nothing; a device that is removed has no record; and with each change the
-- records go that were never connected to and not detected for longer than the limit, and no others.
pub perform-IsPromised :
    (info_of : DeviceService → ServiceInfo) (guid : String) (now : ℕ) (c : StoreCall) (s : Store)
    → IsDict s.stored_devices
    → IsStorable guid c s
    → (s' : Store) × (perform info_of guid now c s ≡ some s')
      × IsDict s'.stored_devices
      × IsPromised info_of guid now c s (view s')
perform-IsPromised info_of guid now (adds r) s dict (h, u) =
    let (s', e, dict', seen) = perform-refines info_of guid now (adds r) s dict u in
    let (made, m, made_right) =
      made_of-IsRecordOf info_of (device_id guid (s.objects r))
        (view s (device_id guid (s.objects r))) (s.objects r) u in
    (
      s',
      e,
      dict',
      (
        made,
        made_right,
        Changed-of info_of guid now r s (some made) (view s')
            (λ j. seen j ∙ effect-adds info_of guid now r s made h m j),
      ),
    )
perform-IsPromised info_of guid now (updates r) s dict (h, u, n) =
    let (s', e, dict', seen) = perform-refines info_of guid now (updates r) s dict (u, n) in
    (
      s',
      e,
      dict',
      elim (Option-cases (view s (device_id guid (s.objects r)))) [
        | inl absent ↦
            inl (absent, λ j. seen j ∙ effect-updates_none info_of guid now r s h absent j)
        | inr (old, there) ↦
            let (made, m, made_right) =
              made_of-IsRecordOf info_of (device_id guid (s.objects r)) (some old) (s.objects r)
                u in
            inr (
              old,
              there,
              (
                made,
                made_right,
                Changed-of info_of guid now r s (some made) (view s')
                    (λ j. seen j ∙ effect-updates_some info_of guid now r s old made h there m j),
              ),
            )
      ],
    )
perform-IsPromised info_of guid now (removes r) s dict h =
    let (s', e, dict', seen) = perform-refines info_of guid now (removes r) s dict tt in
    (
      s',
      e,
      dict',
      Changed-of info_of guid now r s none (view s')
          (λ j. seen j ∙ effect-removes info_of guid now r s h j),
    )
perform-IsPromised info_of guid now clears s dict h =
    let (s', e, dict', seen) = perform-refines info_of guid now clears s dict tt in
    (s', e, dict', λ j. seen j ∙ unfold effect in refl)
