-- ===== src/Store/Protocol.antt =====
-- Devices/ConnectableDeviceStore.h: what the protocol promises of a store of devices, written out for
-- each field of a record, and that Devices/DefaultConnectableDeviceStore.m keeps it.
pub mod Making
pub mod Calls
use connect_sdk_i_os_core.Prelude.{
  ℕ, ◌+◌, ◌<◌, String, ◌≡◌, ◌≢◌, ◌∙◌, sym, ap, subst, refl, ◌⊎◌, inl, inr, false, List, [], ◌∷◌,
  Option, none, some, if◌then◌else◌, Dict, object_for_key, set_object, set_object?,
  object_for_key-set_object, IsDict, ◌>>=◌, length, ◌==◌, find_first, all_values, Has, All,
  Bool-cases, Option-cases, text_eq, text_eq_iff, arith,
}
use connect_sdk_i_os_core.Service.{DeviceService}
use connect_sdk_i_os_core.Device.{Device, services}
use connect_sdk_i_os_core.Store.{
  StoredDevice, ServiceInfo, Store, device_id, has_service, is_old, number_or_zero,
}
use connect_sdk_i_os_core.Store.Updates.{
  file_services, json_representation_for_device, updated_record, infos_of, new_record,
}
use connect_sdk_i_os_core.Store.Lookups.{fresh_record}
use connect_sdk_i_os_core.Store.Contract.{
  StoreCall, adds, updates, removes, clears, Records, view, made_of, effect, perform,
}
use connect_sdk_i_os_core.Store.Refinement.{perform-refines}
use connect_sdk_i_os_core.Store.Refinement.Changes.{HasUuids}

-- What stands under an identifier once services were filed under theirs: one of the services with the
-- identifier, or, if none has it, what stood there.
abbrev pub FiledUnder :
    (DeviceService → ServiceInfo)
    → String
    → List DeviceService
    → Option ServiceInfo
    → Option ServiceInfo
    → Type 0
FiledUnder info_of key ss old new =
    ((s : DeviceService) × Has s ss × (s.description.uuid ≡ some key) × (new ≡ some (info_of s)))
    ⊎ (((s : DeviceService) → Has s ss → s.description.uuid ≢ some key) × (new ≡ old))

-- What a record has of the device: its identifier and its name stay those of the record that there
-- was.
abbrev pub Names : String → Option StoredDevice → Device → StoredDevice → Type 0
Names key none d r = (r.id ≡ some key) × (r.friendly_name ≡ d.description.friendly_name)
Names key (some old) d r = (r.id ≡ old.id) × (r.friendly_name ≡ old.friendly_name)

abbrev pub old_infos : Option StoredDevice → Dict ServiceInfo
old_infos none = []
old_infos (some old) = infos_of old.services

-- The record of a device that was stored last as `old`, if it was.
pub record IsRecordOf (info_of : DeviceService → ServiceInfo) (key : String)
    (old : Option StoredDevice) (d : Device) (r : StoredDevice) : Type 0 where
  pub names : Names key old d r
  pub address : r.last_known_ip_address ≡ d.last_known_ip_address
  pub wifi : r.last_seen_on_wifi ≡ d.last_seen_on_wifi
  pub connected_at : r.last_connected ≡ some d.last_connected
  pub detected_at : r.last_detection ≡ some d.last_detection
  pub filed :
      (infos : Dict ServiceInfo) × (r.services ≡ some infos)
      × ((k : String)
          → FiledUnder info_of k
              (services d)
              (object_for_key k (old_infos old))
              (object_for_key k infos))

-- Never connected to, and not detected for longer than the limit.
abbrev pub IsExpired : ℕ → ℕ → StoredDevice → Type 0
IsExpired max now r =
    (number_or_zero r.last_connected ≡ 0) × (max + number_or_zero r.last_detection < now)

-- What the cleaning that goes with each change leaves of a record.
abbrev pub Cleaned : ℕ → ℕ → Option StoredDevice → Option StoredDevice → Type 0
Cleaned max now none o = o ≡ none
Cleaned max now (some r) o =
    (IsExpired max now r × (o ≡ none)) ⊎ ((¬ IsExpired max now r) × (o ≡ some r))

-- The records behind a change of the one under `key`.
abbrev pub Changed : ℕ → ℕ → String → Option StoredDevice → Records → Records → Type 0
Changed max now key o v v' =
    (j : String) → Cleaned max now (if text_eq key j then o else v j) (v' j)

-- What the comments of the header promise of the records, with the age limit of the class.
abbrev pub IsPromised :
    (DeviceService → ServiceInfo) → String → ℕ → StoreCall → Store → Records → Type 0
IsPromised info_of guid now (adds r) s v' =
    (made : StoredDevice) × IsRecordOf info_of (device_id guid (s.objects r))
      (view s (device_id guid (s.objects r))) (s.objects r) made
    × Changed s.max_store_duration now (device_id guid (s.objects r)) (some made) (view s) v'
IsPromised info_of guid now (updates r) s v' =
    ((view s (device_id guid (s.objects r)) ≡ none) × ((j : String) → v' j ≡ view s j))
    ⊎ ((old : StoredDevice) × (view s (device_id guid (s.objects r)) ≡ some old)
        × ((made : StoredDevice) × IsRecordOf info_of (device_id guid (s.objects r)) (some old)
              (s.objects r) made
            × Changed s.max_store_duration now (device_id guid (s.objects r)) (some made) (view s)
                v'))
IsPromised info_of guid now (removes r) s v' =
    Changed s.max_store_duration now (device_id guid (s.objects r)) none (view s) v'
IsPromised info_of guid now clears s v' = (j : String) → v' j ≡ none

abbrev pub HasServices : Device → Type 0
HasServices d = services d ≢ []

-- The device of the call has services; those of one that is stored have identifiers, and for an
-- update no service is stored under the identifier of the device.
abbrev pub IsStorable : String → StoreCall → Store → Type 0
IsStorable guid (adds r) s = HasServices (s.objects r) × HasUuids (s.objects r)
IsStorable guid (updates r) s =
    HasServices (s.objects r)
    × HasUuids (s.objects r)
    × (find_first (has_service (device_id guid (s.objects r))) (all_values s.stored_devices) ≡ none)
IsStorable guid (removes r) s = HasServices (s.objects r)
IsStorable guid clears s = Unit
