-- ===== src/Tests/Interfaces.antt =====
-- The contracts of the headers at work, and the components that stand beside the devices.
use mathlib.Core.Bool.{false≢true}
use connect_sdk_i_os_core.Prelude.{
  String, ◌≡◌, ◌≢◌, refl, ◌↔◌, ◌⊎◌, Dict, inl, inr, true, false, List, [], ◌∷◌, none, some, Has,
  IsDict, object_for_key, text_eq, text_eq_iff, range_of_string, substring_to_index, arith,
}
use connect_sdk_i_os_core.Service.{DeviceService}
use connect_sdk_i_os_core.Service.Contract.{asks_for, answer_query, HasMatch, answer_query_iff}
use connect_sdk_i_os_core.Device.{Device, DeviceEvent}
use connect_sdk_i_os_core.Device.Calls.{adds_service, perform_call, perform_call-IsFiled}
use connect_sdk_i_os_core.Device.Filing.{IsFiled}
use connect_sdk_i_os_core.Device.Contract.{wants_service_with_name, IsAnswer, ask, ask-IsAnswer}
use connect_sdk_i_os_core.Device.Delegation.{
  service_pairing_success, proxy_of, has_proxy, handle_service_message,
  handle_service_message-proxies,
}
use connect_sdk_i_os_core.Config.{ServiceConfig, set_delegate, observe}
use connect_sdk_i_os_core.Config.Notices.{set_delegates, set_delegates-silent}
use connect_sdk_i_os_core.Sessions.{
  LaunchSession, app, raw_other, launch_session_from_json_object, to_json_object, stored_raw, Value,
}
use connect_sdk_i_os_core.Sessions.RoundTrip.{
  IsNameless, launch_session_from_json_object-to_json_object,
}
use connect_sdk_i_os_core.Store.{Store, StoredDevice, ServiceInfo, set_max_store_duration}
use connect_sdk_i_os_core.Store.Contract.{adds, view, perform}
use connect_sdk_i_os_core.Store.Protocol.{IsPromised}
use connect_sdk_i_os_core.Store.Protocol.Calls.{perform-IsPromised}
use connect_sdk_i_os_core.Store.Refinement.Changes.{HasUuids}
use connect_sdk_i_os_core.Store.Expiry.{perform-keeps_connected, add_device-expires}
use connect_sdk_i_os_core.Tests.{tv, all_methods, living_room}
use connect_sdk_i_os_core.Tests.Services.{living_room-IsFiled}

abbrev newer_tv : DeviceService
newer_tv = record tv { description = record tv.description { last_detection = 9 } }

ask-IsAnswer_example :
    IsAnswer living_room
      (wants_service_with_name "DIAL")
      (ask living_room (wants_service_with_name "DIAL"))
ask-IsAnswer_example = ask-IsAnswer living_room (wants_service_with_name "DIAL") living_room-IsFiled

perform_call-IsFiled_example :
    (d' : Device) × (events : List DeviceEvent) × (perform_call living_room (adds_service newer_tv)
      ≡ some (d', events))
    × IsFiled d'
perform_call-IsFiled_example =
    perform_call-IsFiled living_room (adds_service newer_tv) living_room-IsFiled ("webOS TV", refl)

has_apps : HasMatch tv.capabilities "Launcher.Any"
unfolding range_of_string substring_to_index
has_apps = ("Launcher.App", inl refl, inr (8, refl, (λ e. cc), ([], _, refl)))

answer_query_iff_example :
    (answer_query tv (asks_for "Launcher.Any") ≡ true) ↔ HasMatch tv.capabilities "Launcher.Any"
answer_query_iff_example = answer_query_iff tv (asks_for "Launcher.Any")

-- The television offers applications.
has_launcher : answer_query tv (asks_for "Launcher.Any") ≡ true
has_launcher = (answer_query_iff tv (asks_for "Launcher.Any")).1 has_apps

handle_service_message-proxies_example :
    Has
      (proxy_of tv service_pairing_success)
      (handle_service_message living_room tv 3 service_pairing_success).1
    ↔ (has_proxy all_methods service_pairing_success ≡ true)
handle_service_message-proxies_example =
    handle_service_message-proxies living_room tv 3 service_pairing_success all_methods refl

abbrev watched_config : ServiceConfig
watched_config = record {
  config_class = "WebOSTVServiceConfig";
  uuid = some "uid-1";
  connected = false;
  was_connected = false;
  last_detection = 5;
  delegate = some 1;
  has_observers = true;
}

set_delegates-silent_example :
    observe (set_delegates (set_delegate watched_config none) (some 2 ∷ [])) ≡ []
set_delegates-silent_example = set_delegates-silent watched_config (some 2 ∷ []) refl

abbrev app_session : LaunchSession
app_session = record {
  app_id = some "netflix";
  name = none;
  session_id = some "session-1";
  raw_data = some (raw_other 3);
  session_type = app;
  service = none;
}

launch_session_from_json_object-to_json_object_example :
    (IsNameless app_session.service × (to_json_object app_session ≡ none))
    ⊎ ((¬ IsNameless app_session.service)
        × ((json : Dict Value) × (to_json_object app_session ≡ some json)
            × (launch_session_from_json_object json ≡ record app_session {
              service = none;
              raw_data = stored_raw app_session.raw_data;
            })))
launch_session_from_json_object-to_json_object_example =
    launch_session_from_json_object-to_json_object app_session

-- The JSON form of a service without a configuration.
abbrev info_of : DeviceService → ServiceInfo
info_of service = record { service_class = service.service_class; config = none }

abbrev known : StoredDevice
known = record {
  id = some "device-0";
  friendly_name = some "TV";
  last_known_ip_address = none;
  last_seen_on_wifi = none;
  last_connected = some 3;
  last_detection = some 4;
  services = none;
}

abbrev shelf : Store
shelf = record {
  objects = λ r. living_room;
  fresh = 1;
  active_devices = [];
  stored_devices = ("device-0", known) ∷ [];
  max_store_duration = 10;
  version = 1;
  created = 1;
  updated = 1;
  device_store = none;
}

shelf-IsDict : IsDict shelf.stored_devices
unfolding object_for_key
shelf-IsDict = (refl, tt)

living_room-HasUuids : HasUuids living_room
living_room-HasUuids = (("uid-1", refl), (("uid-1", refl), tt))

perform-IsPromised_example :
    (s' : Store) × (perform info_of "guid" 7 (adds 0) shelf ≡ some s')
    × IsDict s'.stored_devices
    × IsPromised info_of "guid" 7 (adds 0) shelf (view s')
perform-IsPromised_example =
    perform-IsPromised info_of "guid" 7 (adds 0) shelf shelf-IsDict
      ((λ e. cc e), living_room-HasUuids)

other_device : ◌≢◌ {A = String} "device-1" "device-0"
unfolding text_eq
other_device e = false≢true ((text_eq_iff "device-1" "device-0").1 e)

known_here : view shelf "device-0" ≡ some known
unfolding object_for_key text_eq
known_here = refl

new_here : view shelf "device-1" ≡ none
unfolding object_for_key text_eq
new_here = refl

perform-keeps_connected_example :
    (s' : Store) × (perform info_of "guid" 99 (adds 0) shelf ≡ some s')
    × (view s' "device-0" ≡ some known)
perform-keeps_connected_example =
    perform-keeps_connected info_of "guid" 99 (adds 0) shelf "device-0" known shelf-IsDict
      living_room-HasUuids other_device known_here (omega arith)

add_device-expires_example :
    (s' : Store) × (perform info_of "guid" 7 (adds 0) shelf ≡ some s')
    × (view (set_max_store_duration 10 20 s') "device-1" ≡ none)
add_device-expires_example =
    add_device-expires info_of "guid" 7 0 10 20 shelf shelf-IsDict living_room-HasUuids new_here
      refl (omega arith)
