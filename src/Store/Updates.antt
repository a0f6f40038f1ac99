-- ===== src/Store/Updates.antt =====
-- Devices/DefaultConnectableDeviceStore.m: `addDevice:`, `updateDevice:` and the records that they make
-- of a device.
use connect_sdk_i_os_core.Prelude.{
  ℕ, String, List, [], ◌∷◌, Option, none, some, if◌then◌else◌, Dict, object_for_key, set_object,
  set_object?, length, ◌==◌, ◌>>=◌,
}
use connect_sdk_i_os_core.Service.{DeviceService}
use connect_sdk_i_os_core.Device.{Device, services}
use connect_sdk_i_os_core.Store.{
  StoredDevice, ServiceInfo, Store, store, stored_device_for_uuid, device_id, make_id, activate,
}

abbrev pub infos_of : Option (Dict ServiceInfo) → Dict ServiceInfo
infos_of none = []
infos_of (some infos) = infos

-- The record of a device whose services have the forms given.
abbrev pub new_record : String → Device → Dict ServiceInfo → StoredDevice
new_record key d infos = record {
  id = some key;
  friendly_name = d.description.friendly_name;
  last_known_ip_address = d.last_known_ip_address;
  last_seen_on_wifi = d.last_seen_on_wifi;
  last_connected = some d.last_connected;
  last_detection = some d.last_detection;
  services = some infos;
}

-- The operations below ask services for their JSON form, which their classes answer.
module _ (info_of : DeviceService → ServiceInfo) where
  -- The services are filed under their identifiers; one without raises an exception, `none`.
  unfoldable pub file_services : List DeviceService → Dict ServiceInfo → Option (Dict ServiceInfo)
  file_services [] infos = some infos
  file_services (service ∷ ss) infos = do
    infos' ← set_object? service.description.uuid (info_of service) infos
    file_services ss infos'

  unfoldable pub json_representation_for_device : String → Device → Option StoredDevice
  json_representation_for_device key d = do
    infos ← file_services (services d) []
    some (new_record key d infos)

  -- An update keeps the services that the device does not have now.
  unfoldable pub updated_record : StoredDevice → Device → Option StoredDevice
  updated_record old d = do
    infos ← file_services (services d) (infos_of old.services)
    some (record old {
      last_known_ip_address = d.last_known_ip_address;
      last_seen_on_wifi = d.last_seen_on_wifi;
      last_connected = some d.last_connected;
      last_detection = some d.last_detection;
      services = some infos;
    })

  -- `updateDevice:` behind the guard, of a device under its identifier, by the record found.
  unfoldable pub update_found : String → ℕ → ℕ → Store → Option StoredDevice → Option Store
  update_found key now r s none = some s
  update_found key now r s (some old) = do
    info ← updated_record old (s.objects r)
    some (
        store now (record s {
          stored_devices = set_object key info s.stored_devices;
          active_devices = set_object key r s.active_devices;
        }))

  unfoldable pub update_under : String → ℕ → ℕ → Store → Option Store
  update_under key now r s = update_found key now r s (stored_device_for_uuid key s.stored_devices)

  unfoldable pub update_device : String → ℕ → ℕ → Store → Option Store
  update_device guid now r s =
      if length (services (s.objects r)) == 0
      then some s
      else update_under (device_id guid (s.objects r)) now r (make_id guid r s)

  -- `addDevice:` behind the guard and the entry among the active devices, by the record found.
  unfoldable pub add_found : String → ℕ → ℕ → Store → Option StoredDevice → Option Store
  add_found key now r s none = do
    info ← json_representation_for_device key (s.objects r)
    some (store now (record s { stored_devices = set_object key info s.stored_devices }))
  add_found key now r s (some _) = update_under key now r s

  unfoldable pub add_under : String → ℕ → ℕ → Store → Option Store
  add_under key now r s = add_found key now r s (object_for_key key s.stored_devices)

  unfoldable pub add_device : String → ℕ → ℕ → Store → Option Store
  add_device guid now r s =
      if length (services (s.objects r)) == 0
      then some s
      else add_under (device_id guid (s.objects r)) now r (activate guid r s)
