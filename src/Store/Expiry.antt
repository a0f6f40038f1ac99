-- ===== src/Store/Expiry.antt =====
-- Devices/DefaultConnectableDeviceStore.h: how long a record stays.
use connect_sdk_i_os_core.Prelude.{
  ℕ, ◌+◌, ◌<◌, String, ◌≡◌, ◌≢◌, ◌∙◌, ap, refl, Bool, true, false, Option, none, some,
  if◌then◌else◌, Dict, IsDict, text_eq, text_eq_iff, arith, ◌>>=◌, length, ◌==◌, Bool-cases, inl,
  inr,
}
use connect_sdk_i_os_core.Service.{DeviceService}
use connect_sdk_i_os_core.Device.{Device, services}
use connect_sdk_i_os_core.Store.{
  StoredDevice, ServiceInfo, Store, is_old, number_or_zero, set_max_store_duration, device_id,
}
use connect_sdk_i_os_core.Store.Updates.{new_record, json_representation_for_device}
use connect_sdk_i_os_core.Store.Lookups.{fresh_record, object_for_key-set_max_store_duration}
use connect_sdk_i_os_core.Store.Contract.{
  StoreCall, adds, updates, removes, clears, Records, view, with_record, within, made_of,
  updated_records, effect, perform,
}
use connect_sdk_i_os_core.Store.Refinement.{IsReady, perform-refines}
use connect_sdk_i_os_core.Store.Refinement.Changes.{HasUuids}

-- The record is of a device that has been connected to.
abbrev pub IsConnectedTo : StoredDevice → Type 0
IsConnectedTo d = 0 < number_or_zero d.last_connected

-- The call neither concerns the identifier nor clears the store.
abbrev pub Spares : String → String → StoreCall → Store → Type 0
Spares key guid (adds r) s = device_id guid (s.objects r) ≢ key
Spares key guid (updates r) s = device_id guid (s.objects r) ≢ key
Spares key guid (removes r) s = device_id guid (s.objects r) ≢ key
Spares key guid clears s = ⊥

fresh_record-connected :
    (max now : ℕ) (d : StoredDevice) → IsConnectedTo d → fresh_record max now (some d) ≡ some d
unfolding is_old
fresh_record-connected max now d h = ground arith

-- What a change leaves of a record that a change under another identifier does not concern.
within-spares :
    (max now : ℕ) (key j : String) (o : Option StoredDevice) (v : Records) (d : StoredDevice)
    → j ≢ key
    → v key ≡ some d
    → IsConnectedTo d
    → within max now (with_record j o v) key ≡ some d
within-spares max now key j o v d n e h = elim (Bool-cases (text_eq j key)) [
  | inl t ↦ absurd (n ((text_eq_iff j key).0 t))
  | inr t ↦
      ap (λ b. fresh_record max now (if b then o else v key)) t
      ∙ ap (fresh_record max now) e
      ∙ fresh_record-connected max now d h
]

in_both :
    (b : Bool) (v w : Records) (key : String) (o : Option StoredDevice)
    → v key ≡ o
    → w key ≡ o
    → (if b then v else w) key ≡ o
in_both true v w key o e f = e
in_both false v w key o e f = f

updated_records-spares :
    (info_of : DeviceService → ServiceInfo) (max now : ℕ) (device : Device) (key j : String)
    (o : Option StoredDevice) (v : Records) (d : StoredDevice)
    → j ≢ key
    → v key ≡ some d
    → IsConnectedTo d
    → updated_records info_of j max now device o v key ≡ some d
updated_records-spares info_of max now device key j none v d n e h = e
updated_records-spares info_of max now device key j (some old) v d n e h =
    within-spares max now key j _ v d n e h

effect-Spares :
    (info_of : DeviceService → ServiceInfo) (guid : String) (now : ℕ) (c : StoreCall) (s : Store)
    (key : String) (d : StoredDevice)
    → Spares key guid c s
    → view s key ≡ some d
    → IsConnectedTo d
    → effect info_of guid s.max_store_duration now s.objects c (view s) key ≡ some d
unfolding effect
effect-Spares info_of guid now (adds r) s key d n e h =
    in_both (length (services (s.objects r)) == 0) (view s) _ key (some d) e
      (within-spares s.max_store_duration now key (device_id guid (s.objects r)) _ (view s) d n e h)
effect-Spares info_of guid now (updates r) s key d n e h =
    in_both (length (services (s.objects r)) == 0) (view s) _ key (some d) e (
      updated_records-spares info_of s.max_store_duration now (s.objects r) key
        (device_id guid (s.objects r)) _ (view s) d n e h)
effect-Spares info_of guid now (removes r) s key d n e h =
    in_both (length (services (s.objects r)) == 0) (view s) _ key (some d) e (
      within-spares s.max_store_duration now key (device_id guid (s.objects r)) none (view s) d n e
        h)
effect-Spares info_of guid now clears s key d n e h = absurd n

-- However much time has passed, a call that concerns another device leaves the record of a device
-- that has been connected to as it is.
pub perform-keeps_connected :
    (info_of : DeviceService → ServiceInfo) (guid : String) (now : ℕ) (c : StoreCall) (s : Store)
    (key : String) (d : StoredDevice)
    → IsDict s.stored_devices
    → IsReady guid c s
    → Spares key guid c s
    → view s key ≡ some d
    → IsConnectedTo d
    → (s' : Store) × (perform info_of guid now c s ≡ some s') × (view s' key ≡ some d)
perform-keeps_connected info_of guid now c s key d dict ready n e h =
    let (s', returns, _, seen) = perform-refines info_of guid now c s dict ready in
    (s', returns, seen key ∙ effect-Spares info_of guid now c s key d n e h)

-- The next cleaning leaves no such record.
abbrev IsStale : ℕ → ℕ → Option StoredDevice → Type 0
IsStale max later o = fresh_record max later o ≡ none

IsStale-fresh_record :
    (max later a b : ℕ) (o : Option StoredDevice)
    → IsStale max later o
    → IsStale max later (fresh_record a b o)
IsStale-fresh_record max later a b none h = refl
IsStale-fresh_record max later a b (some d) h = elim (Bool-cases (is_old a b d)) [
  | inl t ↦ rw t refl
  | inr t ↦ ap (λ x. fresh_record max later (if x then none else some d)) t ∙ h
]

IsStale-either :
    (max later : ℕ) (b : Bool) (o v : Option StoredDevice)
    → IsStale max later o
    → IsStale max later v
    → IsStale max later (if b then o else v)
IsStale-either max later true o v h k = h
IsStale-either max later false o v h k = k

IsStale-new_record :
    (max later : ℕ) (key : String) (d : Device) (o : Option (Dict ServiceInfo))
    → d.last_connected ≡ 0
    → max + d.last_detection < later
    → IsStale max later (o >>= λ infos. some (new_record key d infos))
unfolding is_old
IsStale-new_record max later key d none new late = refl
IsStale-new_record max later key d (some infos) new late = ground arith

IsStale-made_of :
    (info_of : DeviceService → ServiceInfo) (max later : ℕ) (key : String) (d : Device)
    (o : Option StoredDevice)
    → o ≡ none
    → d.last_connected ≡ 0
    → max + d.last_detection < later
    → IsStale max later (made_of info_of key o d)
unfolding json_representation_for_device
IsStale-made_of info_of max later key d none e new late =
    IsStale-new_record max later key d _ new late
IsStale-made_of info_of max later key d (some old) e new late = cc

IsStale-effect :
    (info_of : DeviceService → ServiceInfo) (guid : String) (now r max later : ℕ) (s : Store)
    → view s (device_id guid (s.objects r)) ≡ none
    → (s.objects r).last_connected ≡ 0
    → max + (s.objects r).last_detection < later
    → IsStale max later (
        effect info_of guid s.max_store_duration now s.objects
          (adds r)
          (view s)
          (device_id guid (s.objects r)))
unfolding effect
IsStale-effect info_of guid now r max later s absent new late =
    go (length (services (s.objects r)) == 0)
  where
    key : String
    key = device_id guid (s.objects r)

    before : IsStale max later (view s key)
    before = ap (fresh_record max later) absent

    go :
        (b : Bool)
        → IsStale max later (
            (if b
                then view s
                else within s.max_store_duration now
                    (with_record key (made_of info_of key (view s key) (s.objects r)) (view s)))
              key)
    go true = before
    go false = IsStale-fresh_record max later s.max_store_duration now _ (
        IsStale-either max later (text_eq key key) _ (view s key)
          (IsStale-made_of info_of max later key (s.objects r) (view s key) absent new late) before)

-- A device is filed on its first connection before the time of that connection is noted: its record
-- is dropped once it has not been detected for longer than the age limit, whatever the limit is.
pub add_device-expires :
    (info_of : DeviceService → ServiceInfo) (guid : String) (now r max later : ℕ) (s : Store)
    → IsDict s.stored_devices
    → HasUuids (s.objects r)
    → view s (device_id guid (s.objects r)) ≡ none
    → (s.objects r).last_connected ≡ 0
    → max + (s.objects r).last_detection < later
    → (s' : Store) × (perform info_of guid now (adds r) s ≡ some s')
      × (view (set_max_store_duration max later s') (device_id guid (s.objects r)) ≡ none)
add_device-expires info_of guid now r max later s dict u absent new late =
    let (s', returns, dict', seen) = perform-refines info_of guid now (adds r) s dict u in
    (
      s',
      returns,
      object_for_key-set_max_store_duration max later key s' dict'
          ∙ ap (fresh_record max later) (seen key)
          ∙ IsStale-effect info_of guid now r max later s absent new late,
    )
  where
    key : String
    key = device_id guid (s.objects r)
