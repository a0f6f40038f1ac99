-- ===== src/Store/Contract.antt =====
-- Devices/DefaultConnectableDeviceStore.m: the calls of the store as operations on a map from
-- identifiers to records.
use connect_sdk_i_os_core.Prelude.{
  ℕ, String, Option, none, some, if◌then◌else◌, object_for_key, text_eq, length, ◌==◌,
}
use connect_sdk_i_os_core.Service.{DeviceService}
use connect_sdk_i_os_core.Device.{Device, services}
use connect_sdk_i_os_core.Store.{
  StoredDevice, ServiceInfo, Store, device_id, remove_device, remove_all,
}
use connect_sdk_i_os_core.Store.Updates.{
  json_representation_for_device, updated_record, add_device, update_device,
}
use connect_sdk_i_os_core.Store.Lookups.{fresh_record}

-- The calls of the protocol that change the store, of devices by reference.
pub data StoreCall : Type 0 where
  adds updates removes : ℕ → StoreCall
  clears : StoreCall

-- The store as its users see it: the record of each identifier.
abbrev pub Records : Type 0
Records = String → Option StoredDevice

abbrev pub view : Store → Records
view s = λ key. object_for_key key s.stored_devices

abbrev pub with_record : String → Option StoredDevice → Records → Records
with_record key o v = λ j. if text_eq key j then o else v j

-- The age limit of `DefaultConnectableDeviceStore`: each change also drops the records that are old.
abbrev pub within : ℕ → ℕ → Records → Records
within max now v = λ j. fresh_record max now (v j)

module _ (info_of : DeviceService → ServiceInfo) where
  -- The record that is made of a device, from the one that there is.
  abbrev pub made_of : String → Option StoredDevice → Device → Option StoredDevice
  made_of key none d = json_representation_for_device info_of key d
  made_of key (some old) d = updated_record info_of old d

  -- An update, by the record that there is.
  abbrev pub updated_records : String → ℕ → ℕ → Device → Option StoredDevice → Records → Records
  updated_records key max now d none v = v
  updated_records key max now d (some old) v =
      within max now (with_record key (updated_record info_of old d) v)

  -- What a call does to the records. A device without services is ignored.
  unfoldable pub effect : String → ℕ → ℕ → (ℕ → Device) → StoreCall → Records → Records
  effect guid max now objects (adds r) v =
      if length (services (objects r)) == 0
      then v
      else let key = device_id guid (objects r) in
        within max now (with_record key (made_of key (v key) (objects r)) v)
  effect guid max now objects (updates r) v =
      if length (services (objects r)) == 0
      then v
      else let key = device_id guid (objects r) in updated_records key max now (objects r) (v key) v
  effect guid max now objects (removes r) v =
      if length (services (objects r)) == 0
      then v
      else within max now (with_record (device_id guid (objects r)) none v)
  effect guid max now objects clears v = within max now (λ j. none)

  -- The default store, call by call.
  unfoldable pub perform : String → ℕ → StoreCall → Store → Option Store
  perform guid now (adds r) s = add_device info_of guid now r s
  perform guid now (updates r) s = update_device info_of guid now r s
  perform guid now (removes r) s = some (remove_device guid now r s)
  perform guid now clears s = some (remove_all now s)
