-- ===== src/Store.antt =====
-- Devices/DefaultConnectableDeviceStore.m: the records of devices that outlive a run of the app.
-- Times are whole seconds since 1970. Device objects are shared with the manager: the active devices
-- are references into `objects`, of which those from `fresh` on are not yet made. The queue that writes
-- the file from the contents that `store` leaves is in Writer.
pub mod Updates
pub mod Writer
pub mod Lookups
pub mod Contract
pub mod Refinement
pub mod Protocol
pub mod Expiry
use connect_sdk_i_os_core.Prelude.{
  ℕ, suc, ◌+◌, String, Bool, true, false, not, List, [], ◌∷◌, Option, none, some, if◌then◌else◌,
  is_set, or_else, any, select, find_first, map, Dict, object_for, object_for_key, set_object,
  set_object?, remove_object, all_values, length, ltb, text_eq, ◌==◌, ◌>>=◌,
}
use connect_sdk_i_os_core.Description.{ServiceDescription}
use connect_sdk_i_os_core.Config.{ConfigInfo}
use connect_sdk_i_os_core.Service.{DeviceService}
use connect_sdk_i_os_core.Device.{Device, services, connectable_device_with_description}

-- The JSON form of a service; the store does not read its description, which is left out.
pub record ServiceInfo : Type 0 where
  pub service_class : String
  pub config : Option ConfigInfo

-- The record of a device. An entry is `none` where the dictionary lacks it or has NSNull.
pub record StoredDevice : Type 0 where
  pub id : Option String
  pub friendly_name : Option String
  pub last_known_ip_address : Option String
  pub last_seen_on_wifi : Option String
  pub last_connected : Option ℕ
  pub last_detection : Option ℕ
  pub services : Option (Dict ServiceInfo)

-- The contents of the file.
pub record StoreFile : Type 0 where
  pub version : ℕ
  pub created : ℕ
  pub updated : ℕ
  pub devices : Dict StoredDevice

pub record Store : Type 0 where
  pub objects : ℕ → Device
  pub fresh : ℕ
  pub active_devices : Dict ℕ
  pub stored_devices : Dict StoredDevice
  pub max_store_duration : ℕ
  pub version : ℕ
  pub created : ℕ
  pub updated : ℕ
  pub device_store : Option StoreFile

abbrev pub three_days : ℕ
three_days = 259200

-- `init` where there is no file yet.
unfoldable pub new_store : (ℕ → Device) → ℕ → ℕ → Store
new_store objects fresh now = record {
  objects = objects;
  fresh = fresh;
  active_devices = [];
  stored_devices = [];
  max_store_duration = three_days;
  version = 1;
  created = now;
  updated = now;
  device_store = none;
}

-- `init` where there is a file that can be read: nothing is cleaned out.
unfoldable pub load : (ℕ → Device) → ℕ → StoreFile → Store
load objects fresh file = record {
  objects = objects;
  fresh = fresh;
  active_devices = [];
  stored_devices = file.devices;
  max_store_duration = three_days;
  version = file.version;
  created = file.created;
  updated = file.updated;
  device_store = some file;
}

abbrev pub number_or_zero : Option ℕ → ℕ
number_or_zero none = 0
number_or_zero (some n) = n

-- Not connected to since it is stored, and not detected for longer than the store keeps it.
unfoldable pub is_old : ℕ → ℕ → StoredDevice → Bool
is_old max now d =
    if ltb 0 (number_or_zero d.last_connected)
    then false
    else ltb (max + number_or_zero d.last_detection) now

unfoldable pub old_keys : ℕ → ℕ → Dict StoredDevice → List String
old_keys max now [] = []
old_keys max now ((key, d) ∷ ds) =
    let rest = old_keys max now ds in if is_old max now d then key ∷ rest else rest

unfoldable pub remove_objects : List String → Dict StoredDevice → Dict StoredDevice
remove_objects [] ds = ds
remove_objects (key ∷ keys) ds = remove_objects keys (remove_object key ds)

unfoldable pub delete_old_unused_devices : ℕ → Store → Store
delete_old_unused_devices now s = record s {
  stored_devices =
      remove_objects (old_keys s.max_store_duration now s.stored_devices) s.stored_devices;
}

unfoldable pub set_max_store_duration : ℕ → ℕ → Store → Store
set_max_store_duration max now s =
    delete_old_unused_devices now (record s { max_store_duration = max })

-- The last part of `store`, which makes the contents of the file.
unfoldable pub compose_file : ℕ → Store → Store
compose_file now s = record s {
  updated = now;
  device_store = some (record {
    version = s.version;
    created = s.created;
    updated = now;
    devices = s.stored_devices;
  });
}

unfoldable pub store : ℕ → Store → Store
store now s = compose_file now (set_max_store_duration s.max_store_duration now s)

-- `id` of a device that has none makes one, `guid`, and keeps it.
abbrev pub text_or : String → Option String → String
text_or guid none = guid
text_or guid (some t) = t

abbrev pub device_id : String → Device → String
device_id guid d = text_or guid d.id

abbrev pub put_object : ℕ → Device → Store → Store
put_object r d s = record s { objects = λ x. if x == r then d else s.objects x }

abbrev pub make_id : String → ℕ → Store → Store
make_id guid r s =
    put_object r (record (s.objects r) { id = some (device_id guid (s.objects r)) }) s

abbrev pub has_service : String → StoredDevice → Bool
has_service uuid d = elim d.services [
  | none ↦ false
  | some infos ↦ is_set (object_for_key uuid infos)
]

-- The record under the identifier, or else the first with a service of that identifier.
unfoldable pub stored_device_for_uuid : String → Dict StoredDevice → Option StoredDevice
stored_device_for_uuid uuid ds =
    or_else (object_for_key uuid ds) (find_first (has_service uuid) (all_values ds))

abbrev pub is_of_service : String → DeviceService → Bool
is_of_service uuid service = elim service.description.uuid [
  | none ↦ false
  | some own ↦ text_eq uuid own
]

-- The active device under the identifier, or else the first with a service of that identifier.
unfoldable pub active_device_for_uuid : String → Store → Option ℕ
active_device_for_uuid uuid s = elim (object_for_key uuid s.active_devices) [
  | some r ↦ some r
  | none ↦
      find_first (λ r. any (is_of_service uuid) (services (s.objects r)))
        (all_values s.active_devices)
]

-- `initWithJSONObject:` of a device.
unfoldable pub device_from_info : ServiceDescription → StoredDevice → Device
device_from_info blank info = record (connectable_device_with_description blank) {
  id = info.id;
  description = record blank { address = or_else blank.address info.last_known_ip_address };
  last_known_ip_address = info.last_known_ip_address;
  last_seen_on_wifi = info.last_seen_on_wifi;
  last_connected = number_or_zero info.last_connected;
  last_detection = number_or_zero info.last_detection;
}

-- A found device becomes active under its identifier.
unfoldable pub activate : String → ℕ → Store → Store
activate guid r s =
    let s' = make_id guid r s in
    let key = device_id guid (s.objects r) in
    if is_set (object_for_key key s.active_devices)
    then s'
    else record s' { active_devices = set_object key r s.active_devices }

-- The device of a record, made anew. `blank` is what `[ServiceDescription new]` answers.
unfoldable pub revive : String → ServiceDescription → StoredDevice → Store → Store × Option ℕ
revive guid blank info s =
    let s' = put_object s.fresh (device_from_info blank info) (record s { fresh = suc s.fresh }) in
    (activate guid s.fresh s', some s.fresh)

unfoldable pub find_device : String → ServiceDescription → String → Store → Store × Option ℕ
find_device guid blank uuid s = elim (active_device_for_uuid uuid s) [
  | some r ↦ (activate guid r s, some r)
  | none ↦ elim (stored_device_for_uuid uuid s.stored_devices) [
    | none ↦ (s, none)
    | some info ↦ revive guid blank info s
  ]
]

unfoldable pub device_for_id :
    String → ServiceDescription → Option String → Store → Store × Option ℕ
device_for_id guid blank none s = (s, none)
device_for_id guid blank (some uuid) s =
    if text_eq uuid "" then (s, none) else find_device guid blank uuid s

-- The dictionary of which `serviceConfigForUUID:` makes the configuration.
unfoldable pub service_config_for_uuid : Option String → Store → Option ConfigInfo
service_config_for_uuid none s = none
service_config_for_uuid (some uuid) s = if text_eq uuid "" then none else do
  device ← stored_device_for_uuid uuid s.stored_devices
  infos ← device.services
  info ← object_for_key uuid infos
  info.config

unfoldable pub remove_device : String → ℕ → ℕ → Store → Store
remove_device guid now r s =
    if length (services (s.objects r)) == 0
    then s
    else let s' = make_id guid r s in
      let key = device_id guid (s.objects r) in
      store now (record s' { stored_devices = remove_object key s.stored_devices })

unfoldable pub remove_all : ℕ → Store → Store
remove_all now s = store now (record s { stored_devices = [] })
