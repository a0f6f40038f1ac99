-- ===== src/Store/Refinement.antt =====
-- Devices/DefaultConnectableDeviceStore.m: what each call of the store does to the records.
pub mod Changes
use connect_sdk_i_os_core.Prelude.{
  ℕ, String, ◌≡◌, ◌∙◌, sym, ap, subst, refl, Bool, true, false, List, [], ◌∷◌, Option, none, some,
  if◌then◌else◌, is_set, Dict, object_for_key, set_object, set_object?, remove_object,
  object_for_key-set_object, object_for_key-remove_object, set_object-IsDict, remove_object-IsDict,
  IsDict, or_else, ◌>>=◌, length, ◌==◌, find_first, all_values, Bool-cases, inl, inr, All,
}
use connect_sdk_i_os_core.Service.{DeviceService}
use connect_sdk_i_os_core.Device.{Device, services}
use connect_sdk_i_os_core.Store.{
  StoredDevice, ServiceInfo, Store, store, device_id, make_id, activate, has_service,
  stored_device_for_uuid, remove_device, remove_all,
}
use connect_sdk_i_os_core.Store.Updates.{
  file_services, json_representation_for_device, updated_record, add_device, add_under, add_found,
  update_device, update_under, update_found, infos_of, new_record,
}
use connect_sdk_i_os_core.Store.Lookups.{fresh_record, object_for_key-store, store-IsDict}
use connect_sdk_i_os_core.Store.Contract.{
  StoreCall, adds, updates, removes, clears, Records, view, with_record, within, made_of,
  updated_records, effect, perform,
}
use connect_sdk_i_os_core.Store.Refinement.Changes.{
  HasUuids, Returns, store-Returns, update_found-Returns, add_new-Returns,
}

-- The services of the device have identifiers, and no service is stored under that of the device.
abbrev pub IsReady : String → StoreCall → Store → Type 0
IsReady guid (adds r) s = HasUuids (s.objects r)
IsReady guid (updates r) s =
    HasUuids (s.objects r)
    × (find_first (has_service (device_id guid (s.objects r))) (all_values s.stored_devices) ≡ none)
IsReady guid (removes r) s = Unit
IsReady guid clears s = Unit

module _ (info_of : DeviceService → ServiceInfo) where
  add_found-Returns :
      (key : String) (now r : ℕ) (s : Store) (o : Option StoredDevice)
      → object_for_key key s.stored_devices ≡ o
      → IsDict s.stored_devices
      → HasUuids (s.objects r)
      → Returns (add_found info_of key now r s o) (
          within s.max_store_duration now
            (with_record key (made_of info_of key o (s.objects r)) (view s)))
  unfolding add_found update_under stored_device_for_uuid
  add_found-Returns key now r s none e h u = add_new-Returns info_of key now r s h u
  add_found-Returns key now r s (some old) e h u =
      subst
        (λ o.
          Returns
            (update_found info_of key now r s
              (or_else o (find_first (has_service key) (all_values s.stored_devices))))
            (within s.max_store_duration now
              (with_record key (updated_record info_of old (s.objects r)) (view s))))
        (sym e) (update_found-Returns info_of key now r s old h u)

  -- A device that was given its identifier is the same device to the store.
  made_of-named :
      (key : String) (o : Option StoredDevice) (b : Bool) (i : Option String) (d : Device)
      → made_of info_of key o (if b then record d { id = i } else d) ≡ made_of info_of key o d
  unfolding json_representation_for_device updated_record
  made_of-named key none true i d = refl
  made_of-named key none false i d = refl
  made_of-named key (some old) true i d = refl
  made_of-named key (some old) false i d = refl

  HasUuids-named :
      (b : Bool) (i : Option String) (d : Device)
      → HasUuids d
      → HasUuids (if b then record d { id = i } else d)
  HasUuids-named true i d u = u
  HasUuids-named false i d u = u

  -- The store, and the same with the device at `r` named.
  abbrev IsNamed : ℕ → Bool → Option String → Store → Store → Type 0
  IsNamed r b i s s1 =
      (s1.stored_devices ≡ s.stored_devices)
      × (s1.max_store_duration ≡ s.max_store_duration)
      × (s1.objects r ≡ (if b then record (s.objects r) { id = i } else s.objects r))

  made-IsNamed :
      (key : String) (now r : ℕ) (s s1 : Store) (o : Option StoredDevice) (b : Bool)
      (i : Option String)
      → IsNamed r b i s s1
      → within s1.max_store_duration now
          (with_record key (made_of info_of key o (s1.objects r)) (view s1))
        ≡ within s.max_store_duration now
            (with_record key (made_of info_of key o (s.objects r)) (view s))
  made-IsNamed key now r s s1 o b i (es, em, eo) =
      (λ t.
        within (em t) now
          (with_record key (made_of info_of key o (eo t)) (λ j. object_for_key j (es t))))
      ∙ ap (λ x. within s.max_store_duration now (with_record key x (view s)))
          (made_of-named key o b i (s.objects r))

  activate-IsNamed :
      (guid : String) (r : ℕ) (s : Store)
      → IsNamed r (r == r) (some (device_id guid (s.objects r))) s (activate guid r s)
  unfolding activate
  activate-IsNamed guid r s =
      elim (Bool-cases (is_set (object_for_key (device_id guid (s.objects r)) s.active_devices))) [
        | inl e ↦ rw e (refl, refl, refl)
        | inr e ↦ rw e (refl, refl, refl)
      ]

  named-IsDict :
      (r : ℕ) (b : Bool) (i : Option String) (s s1 : Store)
      → IsNamed r b i s s1
      → IsDict s.stored_devices
      → IsDict s1.stored_devices
  named-IsDict r b i s s1 (es, em, eo) h = subst IsDict (sym es) h

  named-HasUuids :
      (r : ℕ) (b : Bool) (i : Option String) (s s1 : Store)
      → IsNamed r b i s s1
      → HasUuids (s.objects r)
      → HasUuids (s1.objects r)
  named-HasUuids r b i s s1 (es, em, eo) u =
      subst HasUuids (sym eo) (HasUuids-named b i (s.objects r) u)

  add_under-Returns :
      (key : String) (now r : ℕ) (b : Bool) (i : Option String) (s s1 : Store)
      → IsNamed r b i s s1
      → IsDict s.stored_devices
      → HasUuids (s.objects r)
      → Returns (add_under info_of key now r s1) (
          within s.max_store_duration now
            (with_record key (made_of info_of key (view s key) (s.objects r)) (view s)))
  unfolding add_under
  add_under-Returns key now r b i s s1 n h u =
      subst (Returns (add_under info_of key now r s1))
        (made-IsNamed key now r s s1 (view s1 key) b i n
          ∙ ap
              (λ o.
                within s.max_store_duration now
                  (with_record key (made_of info_of key o (s.objects r)) (view s)))
              (ap (object_for_key key) n.0))
        (add_found-Returns key now r s1 (view s1 key) refl (named-IsDict r b i s s1 n h)
          (named-HasUuids r b i s s1 n u))

  update_device-Returns :
      (key : String) (now r : ℕ) (b : Bool) (i : Option String) (s s1 : Store)
      (o : Option StoredDevice)
      → IsNamed r b i s s1
      → object_for_key key s.stored_devices ≡ o
      → find_first (has_service key) (all_values s.stored_devices) ≡ none
      → IsDict s.stored_devices
      → HasUuids (s.objects r)
      → Returns
          (update_found info_of key now r s1 (stored_device_for_uuid key s.stored_devices))
          (updated_records info_of key s.max_store_duration now (s.objects r) o (view s))
  unfolding stored_device_for_uuid update_found
  update_device-Returns key now r b i s s1 none n e f h u =
      subst (λ o. Returns (update_found info_of key now r s1 o) (view s))
        (sym
          (ap (λ o. or_else o (find_first (has_service key) (all_values s.stored_devices))) e ∙ f))
        (s1, refl, named-IsDict r b i s s1 n h, λ j. ap (object_for_key j) n.0)
  update_device-Returns key now r b i s s1 (some old) n e f h u =
      subst
        (λ o.
          Returns (update_found info_of key now r s1 o) (
            updated_records info_of key s.max_store_duration now (s.objects r) (some old) (view s)))
        (sym (ap (λ o. or_else o (find_first (has_service key) (all_values s.stored_devices))) e))
        (subst (Returns (update_found info_of key now r s1 (some old)))
          (made-IsNamed key now r s s1 (some old) b i n)
          (update_found-Returns info_of key now r s1 old (named-IsDict r b i s s1 n h)
            (named-HasUuids r b i s s1 n u)))

-- On a dictionary of records, a call that is ready returns, and every identifier then has the record
-- that the call gives it.
pub perform-refines :
    (info_of : DeviceService → ServiceInfo) (guid : String) (now : ℕ) (c : StoreCall) (s : Store)
    → IsDict s.stored_devices
    → IsReady guid c s
    → (s' : Store) × (perform info_of guid now c s ≡ some s')
      × IsDict s'.stored_devices
      × ((key : String)
          → view s' key ≡ effect info_of guid s.max_store_duration now s.objects c (view s) key)
unfolding perform effect add_device update_device remove_device remove_all object_for_key
    update_under
perform-refines info_of guid now (adds r) s h u =
    elim (Bool-cases (length (services (s.objects r)) == 0)) [
      | inl e ↦ rw e (s, refl, h, λ key. refl)
      | inr e ↦ rw e (
          add_under-Returns info_of (device_id guid (s.objects r)) now r (r == r)
            (some (device_id guid (s.objects r))) s (activate guid r s)
            (activate-IsNamed info_of guid r s) h u)
    ]
perform-refines info_of guid now (updates r) s h (u, n) =
    elim (Bool-cases (length (services (s.objects r)) == 0)) [
      | inl e ↦ rw e (s, refl, h, λ key. refl)
      | inr e ↦ rw e (
          update_device-Returns info_of (device_id guid (s.objects r)) now r (r == r)
            (some (device_id guid (s.objects r))) s (make_id guid r s)
            (view s (device_id guid (s.objects r))) (refl, refl, refl) refl n h u)
    ]
perform-refines info_of guid now (removes r) s h u =
    elim (Bool-cases (length (services (s.objects r)) == 0)) [
      | inl e ↦ rw e (s, refl, h, λ key. refl)
      | inr e ↦ rw e (
          store-Returns now
            (record (make_id guid r s) {
              stored_devices = remove_object (device_id guid (s.objects r)) s.stored_devices;
            })
            (with_record (device_id guid (s.objects r)) none (view s))
            (remove_object-IsDict _ s.stored_devices h)
            (λ j. object_for_key-remove_object _ j s.stored_devices))
    ]
perform-refines info_of guid now clears s h u =
    store-Returns now (record s { stored_devices = [] }) (λ j. none) tt (λ j. refl)
