-- ===== src/Store/Refinement/Changes.antt =====
-- Devices/DefaultConnectableDeviceStore.m: what one change of a record leaves, of a device whose
-- services have identifiers.
use connect_sdk_i_os_core.Prelude.{
  ℕ, String, ◌≡◌, ◌∙◌, sym, ap, subst, refl, List, [], ◌∷◌, Option, none, some, Dict, set_object,
  set_object?, object_for_key-set_object, set_object-IsDict, IsDict, ◌>>=◌, All,
}
use connect_sdk_i_os_core.Service.{DeviceService}
use connect_sdk_i_os_core.Device.{Device, services}
use connect_sdk_i_os_core.Store.{StoredDevice, ServiceInfo, Store, store}
use connect_sdk_i_os_core.Store.Updates.{
  file_services, json_representation_for_device, updated_record, add_found, update_found, infos_of,
  new_record,
}
use connect_sdk_i_os_core.Store.Lookups.{fresh_record, object_for_key-store, store-IsDict}
use connect_sdk_i_os_core.Store.Contract.{Records, view, with_record, within}

-- Each service of the device has an identifier.
abbrev pub HasUuids : Device → Type 0
HasUuids d = All (λ service. (uuid : String) × (service.description.uuid ≡ some uuid)) (services d)

-- The call returns, and its result is seen as `v`.
abbrev pub Returns : Option Store → Records → Type 0
Returns o v = (s : Store) × (o ≡ some s) × IsDict s.stored_devices × ((j : String) → view s j ≡ v j)

-- What `store` leaves of a changed dictionary.
pub store-Returns :
    (now : ℕ) (s : Store) (v : Records)
    → IsDict s.stored_devices
    → ((j : String) → view s j ≡ v j)
    → Returns (some (store now s)) (within s.max_store_duration now v)
store-Returns now s v h e = (
  store now s,
  refl,
  store-IsDict now s h,
  λ j. object_for_key-store now j s h ∙ ap (fresh_record s.max_store_duration now) (e j),
)

module _ (info_of : DeviceService → ServiceInfo) where
  file_services-total :
      (ss : List DeviceService) (infos : Dict ServiceInfo)
      → All (λ service. (uuid : String) × (service.description.uuid ≡ some uuid)) ss
      → (infos' : Dict ServiceInfo) × (file_services info_of ss infos ≡ some infos')
  unfolding file_services
  file_services-total [] infos h = (infos, refl)
  file_services-total (service ∷ ss) infos ((uuid, e), h) =
      let (infos', e') = file_services-total ss (set_object uuid (info_of service) infos) h in
      (infos', ap (λ o. set_object? o (info_of service) infos >>= file_services info_of ss) e ∙ e')

  updated_record-total :
      (old : StoredDevice) (d : Device)
      → HasUuids d
      → (info : StoredDevice) × (updated_record info_of old d ≡ some info)
  unfolding updated_record
  updated_record-total old d h =
      let (infos, e) = file_services-total (services d) (infos_of old.services) h in
      (
        _,
        ap
            (λ o. o >>= λ infos. some (record old {
              last_known_ip_address = d.last_known_ip_address;
              last_seen_on_wifi = d.last_seen_on_wifi;
              last_connected = some d.last_connected;
              last_detection = some d.last_detection;
              services = some infos;
            }))
            e,
      )

  json_representation-total :
      (key : String) (d : Device)
      → HasUuids d
      → (info : StoredDevice) × (json_representation_for_device info_of key d ≡ some info)
  unfolding json_representation_for_device
  json_representation-total key d h =
      let (infos, e) = file_services-total (services d) [] h in
      (_, ap (λ o. o >>= λ infos. some (new_record key d infos)) e)

  pub update_found-Returns :
      (key : String) (now r : ℕ) (s : Store) (old : StoredDevice)
      → IsDict s.stored_devices
      → HasUuids (s.objects r)
      → Returns (update_found info_of key now r s (some old)) (
          within s.max_store_duration now
            (with_record key (updated_record info_of old (s.objects r)) (view s)))
  unfolding update_found
  update_found-Returns key now r s old h u =
      let (info, made) = updated_record-total old (s.objects r) u in
      subst
        (λ o.
          Returns
            (o >>= λ info. some (
              store now (record s {
                stored_devices = set_object key info s.stored_devices;
                active_devices = set_object key r s.active_devices;
              })))
            (within s.max_store_duration now (with_record key o (view s))))
        (sym made)
        (store-Returns now
          (record s {
            stored_devices = set_object key info s.stored_devices;
            active_devices = set_object key r s.active_devices;
          })
          (with_record key (some info) (view s)) (set_object-IsDict key info s.stored_devices h)
          (λ j. object_for_key-set_object key j info s.stored_devices))

  pub add_new-Returns :
      (key : String) (now r : ℕ) (s : Store)
      → IsDict s.stored_devices
      → HasUuids (s.objects r)
      → Returns (add_found info_of key now r s none) (
          within s.max_store_duration now
            (with_record key (json_representation_for_device info_of key (s.objects r)) (view s)))
  unfolding add_found
  add_new-Returns key now r s h u =
      let (info, made) = json_representation-total key (s.objects r) u in
      subst
        (λ o.
          Returns
            (o >>= λ info.
              some (store now (record s { stored_devices = set_object key info s.stored_devices })))
            (within s.max_store_duration now (with_record key o (view s))))
        (sym made)
        (store-Returns now (record s { stored_devices = set_object key info s.stored_devices })
          (with_record key (some info) (view s)) (set_object-IsDict key info s.stored_devices h)
          (λ j. object_for_key-set_object key j info s.stored_devices))
