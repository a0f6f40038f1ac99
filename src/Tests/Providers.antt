-- ===== src/Tests/Providers.antt =====
-- Discovery/Providers/SSDPDiscoveryProvider.m at work.
use connect_sdk_i_os_core.Prelude.{
  ◌↔◌, ◌<◌, arith, ◌≡◌, ℕ, String, List, refl, inl, true, [], ◌∷◌, none, some, text_eq, find_first,
  object_for_key, any, codes, length, ◌==◌, if◌then◌else◌, set_object, substring_with_range,
  drop_units, take_units,
}
use connect_sdk_i_os_core.Description.{ServiceDescription}
use connect_sdk_i_os_core.Ssdp.{
  Filter, XmlDevice, xml_device, last_device, next_device, DeviceInfo, Provider, Datagram,
  is_searching_for_filter, load_location, heed, new_service, advertise, advertise_at,
}
use connect_sdk_i_os_core.Ssdp.Devices.{
  device_containing, in_order, serves_all, device_containing-first,
}
use connect_sdk_i_os_core.Ssdp.Receiving.{did_receive_data, is_wanted, uuid_units, announced}
use connect_sdk_i_os_core.Ssdp.Tracking.{IsApart, receives, perform, perform-IsApart}
use connect_sdk_i_os_core.Ssdp.Datagrams.{did_receive_data-raises_iff}
use connect_sdk_i_os_core.Ssdp.Loads.{Greets, did_receive_data-Greets}

abbrev dial_filter : Filter
dial_filter = record { service_id = "DIAL"; filter = "urn:dial"; required_services = "dial:1" ∷ [] }

abbrev no_info : DeviceInfo
no_info = record {
  friendly_name = none;
  model_name = none;
  model_number = none;
  model_description = none;
  manufacturer = none;
  service_list = none;
}

abbrev nested : XmlDevice
nested =
    xml_device no_info [] (next_device (xml_device no_info ("dial:1" ∷ []) last_device) last_device)

device_containing-first_example :
    device_containing ("dial:1" ∷ []) nested
    ≡ find_first (serves_all ("dial:1" ∷ [])) (in_order nested)
device_containing-first_example = device_containing-first ("dial:1" ∷ []) nested

abbrev listening : Provider
listening = record {
  is_running = true;
  refresh_timer = true;
  service_filters = dial_filter ∷ [];
  found_services = [];
  hello_devices = [];
}

abbrev answer_received : Datagram
answer_received = record {
  method = none;
  code = 200;
  type = some "urn:dial";
  usn = some (codes "uuid:1::urn:dial");
  usn_match = some (0, 8);
  nts = none;
  location = some "http://10.0.0.2/dd.xml";
  host = some "10.0.0.2";
  sender = "10.0.0.2";
}

abbrev greeted : ServiceDescription
greeted = new_service (announced answer_received "1") 5

listening-IsApart : IsApart listening
unfolding object_for_key
listening-IsApart u = inl refl

-- The text of the unit that stands below.
abbrev as_uuid : List ℕ → String
as_uuid units = if length units == 1 then "1" else ""

-- The provider has greeted the device.
abbrev greeting : Provider
greeting = record listening { hello_devices = ("1", greeted) ∷ [] }

received :
    did_receive_data as_uuid listening answer_received 5
    ≡ some (greeting, load_location "http://10.0.0.2/dd.xml" "1" ∷ [])
unfolding did_receive_data is_wanted is_searching_for_filter any text_eq advertise advertise_at heed
    uuid_units substring_with_range drop_units take_units object_for_key set_object
received = refl

perform-IsApart_example : IsApart greeting
unfolding perform
perform-IsApart_example =
    perform-IsApart as_uuid listening greeting (receives answer_received 5)
      (load_location "http://10.0.0.2/dd.xml" "1" ∷ []) listening-IsApart received

did_receive_data-Greets_example : Greets "1" listening greeting
did_receive_data-Greets_example =
    did_receive_data-Greets as_uuid listening greeting answer_received 5 "http://10.0.0.2/dd.xml"
      "1" (load_location "http://10.0.0.2/dd.xml" "1" ∷ []) received (inl refl)

-- A datagram of the network whose USN has three characters.
abbrev short_answer : Datagram
short_answer = record answer_received { usn = some (codes "dev"); usn_match = none }

short_wanted : is_wanted listening short_answer ≡ true
unfolding is_wanted is_searching_for_filter any text_eq
short_wanted = refl

did_receive_data-raises_iff_example :
    (did_receive_data as_uuid listening short_answer 5 ≡ none) ↔ (length (codes "dev") < 5)
did_receive_data-raises_iff_example =
    did_receive_data-raises_iff as_uuid listening short_answer 5 (codes "dev") short_wanted refl
      (omega arith) refl
