-- ===== src/Manager/Services.antt =====
-- Discovery/DiscoveryManager.m: `addServiceDescription:toDevice:`, which makes a service of a
-- description and puts it on the device.
pub mod Keeps
use connect_sdk_i_os_core.Prelude.{
  ℕ, String, Bool, true, false, not, ◌&&◌, List, [], ◌∷◌, map, Option, none, some, if◌then◌else◌,
  is_set, or_else, find_first, is_equal_to_string, codes, codes_eq, uppercase, range_of_string,
  Dict, object_for, text_eq, ◌>>=◌,
}
use connect_sdk_i_os_core.Description.{ServiceDescription}
use connect_sdk_i_os_core.Service.{DeviceService}
use connect_sdk_i_os_core.Device.{
  Device, services, service_with_name, remove_service_with_id, add_service,
}

-- `descriptionIsNetcastTV:`. A message to a nil model description answers the location 0, which is
-- not `NSNotFound`.
unfoldable pub description_is_netcast_tv : ServiceDescription → Bool
description_is_netcast_tv d = elim d.model_name [
  | none ↦ false
  | some name ↦
      if codes_eq (uppercase (codes name)) (codes "LG TV")
      then elim d.model_description [
        | none ↦ false
        | some text ↦
            if is_set (range_of_string (codes "WEBOS") (uppercase (codes text)))
            then false
            else is_equal_to_string d.service_id (some "Netcast TV")
      ]
      else false
]

-- The guard on the class of the service.
unfoldable pub accepts_description : String → ServiceDescription → Bool
accepts_description service_class d =
    if text_eq service_class "DLNAService"
    then is_set d.location_xml
    else if text_eq service_class "NetcastTVService"
    then description_is_netcast_tv d
    else true

refused : Option String → ServiceDescription → Bool
refused none d = false
refused (some c) d = not (accepts_description c d)

-- The identifier in the configuration of a new service: a stored one, or a new one's.
unfoldable pub uuid_of : Option (Option String) → ServiceDescription → Option String
uuid_of none d = d.uuid
uuid_of (some uuid) d = uuid

-- The first service whose description has the service id.
unfoldable pub service_of_type : Device → Option String → Option DeviceService
service_of_type device service_id =
    find_first (λ s. is_equal_to_string s.description.service_id service_id) (services device)

-- `alreadyAddedService.serviceDescription = description`, on the service filed under the name.
unfoldable pub describe :
    Option String → ServiceDescription → Dict DeviceService → Dict DeviceService
describe none d ss = ss
describe (some name) d [] = []
describe (some name) d ((k, s) ∷ ss) =
    if text_eq k name
    then (k, record s { description = d }) ∷ ss
    else (k, s) ∷ describe (some name) d ss

-- Making a service is the initializer of its class: `instantiate class config_uuid`.
module _ (instantiate : String → Option String → DeviceService) where
  -- The end of `addServiceDescription:toDevice:`. The initializer of a nil class answers nil, which
  -- the dictionary of the device refuses by an exception.
  unfoldable pub add_new_service :
      Option String → ServiceDescription → Option String → Device → Option Device
  add_new_service none d config_uuid device = none
  add_new_service (some service_class) d config_uuid device = do
    (device', events) ←
        add_service device (record (instantiate service_class config_uuid) { description = d })
    some device'

  -- `class` is what the manager has registered for the service id, and `stored_config` the
  -- identifier in the configuration that the store has for the UUID, if it is in use and has one.
  unfoldable pub add_service_description :
      Option String → ServiceDescription → Option (Option String) → Device → Option Device
  unfolding refused
  add_service_description service_class d stored_config device =
      if refused service_class d then some device else elim (service_of_type device d.service_id) [
        | none ↦ add_new_service service_class d (uuid_of stored_config d) device
        | some s ↦
            if is_equal_to_string s.description.uuid d.uuid
            then some (record device {
              description = d;
              services = describe d.service_id d device.services;
            })
            else add_new_service service_class d (uuid_of stored_config d)
                (remove_service_with_id device d.service_id).0
      ]
