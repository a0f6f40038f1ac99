-- ===== src/Device.antt =====
-- Devices/ConnectableDevice.m: a device and the services found on it.
-- What the device tells its delegate, and the calls that it makes on services and on the device
-- store, are a list of events in the order of the calls.
pub mod Capabilities
pub mod Connection
pub mod Delegation
pub mod Delegate
pub mod Contract
pub mod Calls
pub mod Filing
pub mod Selection
use connect_sdk_i_os_core.Prelude.{
  ℕ, suc, ◌+◌, String, Bool, true, false, not, ◌&&◌, ◌||◌, List, [], ◌∷◌, ◌++◌, Option, none, some,
  if◌then◌else◌, is_set, or_else, ◌>>=◌, any, all, find_first, Dict, object_for, object_for_key,
  set_object, set_object?, remove_object, all_values, contains_object, length, ltb, leb, text_eq,
  map,
}
use connect_sdk_i_os_core.Description.{ServiceDescription}
use connect_sdk_i_os_core.Service.{
  DeviceService, Notice, Control, ControlKind, service_name, without,
}
use connect_sdk_i_os_core.Service

-- Which optional methods a delegate responds to.
pub record DeviceDelegate : Type 0 where
  pub on_capabilities : Bool
  pub on_connection_required : Bool
  pub on_connection_success : Bool
  pub on_connection_failed : Bool
  pub on_service_failed : Bool
  pub on_service_disconnected : Bool
  pub on_pairing_required : Bool
  pub on_pairing_success : Bool
  pub on_pairing_failed : Bool

-- The type of pairing that a service requires.
pub data DeviceServicePairingType : Type 0 where
  no_pairing first_screen pin_code mixed air_play_mirroring unknown_pairing :
      DeviceServicePairingType

pub data DeviceEvent : Type 0 where
  ready : DeviceEvent
  disconnected : Option ℕ → DeviceEvent
  capabilities_changed : Notice → DeviceEvent
  connection_required : Option String → DeviceEvent
  connection_success : Option String → DeviceEvent
  connection_failed : ℕ → DeviceEvent
  service_failed : Option String → ℕ → DeviceEvent
  service_disconnected : Option String → Option ℕ → DeviceEvent
  pairing_required : Option String → DeviceServicePairingType → Option ℕ → DeviceEvent
  pairing_success : Option String → DeviceEvent
  pairing_failed : Option String → ℕ → DeviceEvent
  show_alert : Option ℕ → DeviceEvent
  tell_manager : Notice → DeviceEvent
  connect_service : Option String → DeviceEvent
  disconnect_service : Option String → DeviceEvent
  store_device : DeviceEvent

-- `observing` is whether the device listens for a change of the wireless network.
pub record Device : Type 0 where
  pub id : Option String
  pub description : ServiceDescription
  pub services : Dict DeviceService
  pub delegate : Option DeviceDelegate
  pub last_known_ip_address : Option String
  pub last_seen_on_wifi : Option String
  pub last_connected : ℕ
  pub last_detection : ℕ
  pub observing : Bool

-- A message to the delegate that is sent without a test for the method.
to_delegate : Device → DeviceEvent → List DeviceEvent
to_delegate d e = elim d.delegate [ none ↦ [] | some _ ↦ e ∷ [] ]

-- A message that is sent if the delegate responds to it.
pub if_responds : Device → (DeviceDelegate → Bool) → DeviceEvent → List DeviceEvent
if_responds d method e = elim d.delegate [
  | none ↦ []
  | some delegate ↦ if method delegate then e ∷ [] else []
]

unfoldable pub connectable_device_with_description : ServiceDescription → Device
connectable_device_with_description description = record {
  id = none;
  description = description;
  services = [];
  delegate = none;
  last_known_ip_address = none;
  last_seen_on_wifi = none;
  last_connected = 0;
  last_detection = 0;
  observing = false;
}

abbrev pub address : Device → Option String
address d = d.description.address

abbrev pub services : Device → List DeviceService
services d = all_values d.services

unfoldable pub has_services : Device → Bool
has_services d = ltb 0 (length d.services)

count_services : (DeviceService → Bool) → List DeviceService → ℕ
count_services p [] = 0
count_services p (s ∷ ss) = let rest = count_services p ss in if p s then suc rest else rest

-- The services that count as connected: those that cannot connect, and those that have.
unfoldable pub connected_service_count : Device → ℕ
unfolding count_services
connected_service_count d =
    count_services (λ s. if s.connectable then s.connected else true) (services d)

unfoldable pub connectable_service_count : Device → ℕ
unfolding count_services
connectable_service_count d = count_services (λ s. s.connectable) (services d)

unfoldable pub connected : Device → Bool
unfolding count_services
connected d =
    leb (length d.services)
      (count_services (λ s. if not s.connectable then true else s.connected) (services d))

unfoldable pub is_connectable : Device → Bool
is_connectable d = any (λ s. s.connectable) (services d)

-- The two loops of `capabilities`.
collect_one : List String → String → List String
collect_one caps c = if contains_object c caps then caps else caps ++ c ∷ []

collect : List String → List String → List String
unfolding collect_one
collect caps [] = caps
collect caps (c ∷ cs) = collect (collect_one caps c) cs

collect_all : List String → List DeviceService → List String
unfolding collect
collect_all caps [] = caps
collect_all caps (s ∷ ss) = collect_all (collect caps s.capabilities) ss

unfoldable pub capabilities : Device → List String
unfolding collect_all
capabilities d = collect_all [] (services d)

unfoldable pub has_capability : Device → String → Bool
has_capability d capability =
    any (λ s. Service.has_capability s.capabilities capability) (services d)

unfoldable pub has_capabilities : Device → List String → Bool
has_capabilities d wanted = all (has_capability d) wanted

unfoldable pub has_any_capability : Device → List String → Bool
has_any_capability d wanted =
    any (λ s. Service.has_any_capability s.capabilities wanted) (services d)

-- The delegate is told what changed since the list was `old`.
update_capabilities_list : Device → List String → List DeviceEvent
unfolding if_responds
update_capabilities_list d old =
    let new = capabilities d in
    if_responds d (λ g. g.on_capabilities)
      (capabilities_changed (record { added = without new old; removed = without old new }))

-- A property of the new description that is set replaces the old one.
unfoldable pub update_consolidated_service_description : Device → ServiceDescription → Device
update_consolidated_service_description d new = record d {
  description = record own {
    address = or_else new.address own.address;
    friendly_name = or_else new.friendly_name own.friendly_name;
    model_name = or_else new.model_name own.model_name;
    model_number = or_else new.model_number own.model_number;
  };
}
  where
    own : ServiceDescription
    own = d.description

unfoldable pub service_with_name : Device → String → Option DeviceService
service_with_name d name = do
  (key, service) ← find_first (λ e. text_eq e.0 name) d.services
  some service

unfoldable pub remove_service_with_id : Device → Option String → Device × List DeviceEvent
unfolding update_capabilities_list
remove_service_with_id d none = (d, [])
remove_service_with_id d (some service_id) = elim (object_for_key service_id d.services) [
  | none ↦ (d, [])
  | some service ↦
      let d' = record d { services = remove_object service_id d.services } in
      (d', disconnect_service (service_name service) ∷ update_capabilities_list d' (capabilities d))
]

-- A service without a delegate gets the device for one.
unfoldable pub adopt : DeviceService → DeviceService
adopt service = record service { delegate = or_else service.delegate (some true) }

require_connection : Device → DeviceService → List DeviceEvent
unfolding if_responds
require_connection d service =
    if service.connectable && not service.connected
    then if_responds d (λ g. g.on_connection_required) (connection_required (service_name service))
    else []

drop_connection : DeviceService → List DeviceEvent
drop_connection service =
    if service.connected then disconnect_service (service_name service) ∷ [] else []

-- The part of `addService:` behind the treatment of an existing service of the same name. The
-- dictionary raises an exception, `none`, if the service has no name.
install_service : Device → DeviceService → List String → Option (Device × List DeviceEvent)
unfolding update_capabilities_list adopt require_connection drop_connection
install_service d service old_capabilities = do
  services ← set_object? (service_name service) (adopt service) d.services
  let d' = record d { services = services }
  some (
    update_consolidated_service_description d' service.description,
    require_connection d service ++ update_capabilities_list d' old_capabilities,
  )

-- The part of `addService:` for an older service of the same name.
replace_service : Device → DeviceService → DeviceService → Option (Device × List DeviceEvent)
unfolding install_service
replace_service d existing service = do
  let (d', removal) = remove_service_with_id d (service_name existing)
  (d'', events) ← install_service d' service (capabilities d)
  some (d'', drop_connection existing ++ (removal ++ events))

unfoldable pub add_service : Device → DeviceService → Option (Device × List DeviceEvent)
unfolding replace_service
add_service d service = elim (object_for (service_name service) d.services) [
  | none ↦ install_service d service (capabilities d)
  | some existing ↦
      if ltb existing.description.last_detection service.description.last_detection
      then replace_service d existing service
      else some (d, [])
]
