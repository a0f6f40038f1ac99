-- ===== src/Manager/Discovery.antt =====
-- Discovery/DiscoveryManager.m: a provider finds or loses a service.
pub mod Consistency
pub mod Losing
pub mod Finding
use connect_sdk_i_os_core.Prelude.{
  ℕ, suc, String, Bool, true, false, not, List, [], ◌∷◌, ◌++◌, Option, none, some, if◌then◌else◌,
  Dict, object_for, object_for_key, set_object, remove_object, ◌>>=◌,
}
use connect_sdk_i_os_core.Description.{ServiceDescription}
use connect_sdk_i_os_core.Service.{DeviceService}
use connect_sdk_i_os_core.Device.{
  Device, connectable_device_with_description, has_services, remove_service_with_id,
}
use connect_sdk_i_os_core.Manager.{
  Manager, ManagerEvent, Outcome, put, handle_device_add, handle_device_update, handle_device_loss,
}
use connect_sdk_i_os_core.Manager.Services.{add_service_description}

-- What the store answers, if it is in use.
unfoldable pub from_store {ℓ} : {A : Type ℓ} → Manager → Option A → Option A
from_store m stored = if m.use_device_store then stored else none

-- The object for a description that no device is listed for: the one that the store answers, or a
-- new one. It is listed under the address.
unfoldable pub enlist : Manager → String → ServiceDescription → Option ℕ → Manager × ℕ
enlist m a d none =
    let made = connectable_device_with_description d in
    (
      record (put m m.fresh made) {
        fresh = suc m.fresh;
        all_devices = set_object a m.fresh m.all_devices;
      },
      m.fresh,
    )
enlist m a d (some r) = (record m { all_devices = set_object a r m.all_devices }, r)

-- What a detection writes on the device.
unfoldable pub detected : Manager → String → ℕ → Device → Device
detected m a now device = record device {
  last_detection = now;
  last_known_ip_address = some a;
  last_seen_on_wifi = m.current_ssid;
}

-- A device that ends without a service is not kept.
unfoldable pub settle : Manager → String → ℕ → Bool → Outcome
settle m a r is_new =
    if not (has_services (m.objects r))
    then some (record m { all_devices = remove_object a m.all_devices }, [])
    else (if is_new then handle_device_add m r else handle_device_update m r)

module _ (instantiate : String → Option String → DeviceService) where
  -- The device with the service of the description.
  unfoldable pub extend :
      Manager → String → ServiceDescription → Option (Option String) → ℕ → ℕ → Option Device
  extend m a d stored_config now r =
      add_service_description instantiate (object_for d.service_id m.device_classes) d
        (from_store m stored_config) (detected m a now (m.objects r))

  unfoldable pub find_at :
      Manager → String → ServiceDescription → Option ℕ → Option (Option String) → ℕ → Outcome
  find_at m a d stored stored_config now = elim (object_for_key a m.all_devices) [
    | none ↦ (do
      let (m', r) = enlist m a d (from_store m stored)
      device ← extend m' a d stored_config now r
      settle (put m' r device) a r true)
    | some r ↦ (do device ← extend m a d stored_config now r; settle (put m r device) a r false)
  ]

  -- `stored` is what `deviceForId:` of the store answers for the UUID, `stored_config` what
  -- `serviceConfigForUUID:` answers, and `now` the time. A nil address is refused as a key.
  unfoldable pub did_find_service :
      Manager → ServiceDescription → Option ℕ → Option (Option String) → ℕ → Outcome
  did_find_service m d stored stored_config now = do
    a ← d.address
    find_at m a d stored stored_config now

-- The device at the address, behind the loss of a service.
unfoldable pub lose_at : Manager → String → ℕ → Option String → Outcome
lose_at m a r service_id =
    let m' = put m r (remove_service_with_id (m.objects r) service_id).0 in
    if not (has_services (m'.objects r))
    then some (
      record m' {
        all_devices = remove_object a m'.all_devices;
        compatible_devices = remove_object a m'.compatible_devices;
      },
      handle_device_loss m' r,
    )
    else handle_device_update m' r

unfoldable pub did_lose_service : Manager → ServiceDescription → Outcome
did_lose_service m d = elim d.address [
  | none ↦ some (m, [])
  | some a ↦ elim (object_for_key a m.all_devices) [
    | none ↦ some (m, [])
    | some r ↦ lose_at m a r d.service_id
  ]
]
