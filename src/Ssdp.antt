-- ===== src/Ssdp.antt =====
-- Discovery/Providers/SSDPDiscoveryProvider.m: services found by the datagrams of SSDP.
-- The sockets, the HTTP parser, the URL loader and the XML reader are of the system or of other
-- projects: what they answer is the argument of the handlers, and what the provider asks of them and
-- tells its delegate is a list of events in the order of the calls.
pub mod Devices
pub mod Filters
pub mod Loads
pub mod Receiving
pub mod Datagrams
pub mod Tracking
use connect_sdk_i_os_core.Prelude.{
  ℕ, suc, ◌+◌, ◌-◌, String, Bool, true, false, not, ◌&&◌, ◌||◌, List, [], ◌∷◌, ◌++◌, map, Option,
  none, some, if◌then◌else◌, is_set, or_else, any, all, select, find_first, is_equal_to_string,
  text_eq, ltb, ◌==◌, ◌*◌, ◌%◌, ◌^◌, ◌>>=◌, length, substring_with_range, contains_object, Dict,
  object_for_key, set_object, remove_object, all_values,
}
use connect_sdk_i_os_core.Description.{ServiceDescription}

-- The discovery parameters of a service class: its service id, its search filter and the services
-- that a device must have.
pub record Filter : Type 0 where
  pub service_id : String
  pub filter : String
  pub required_services : List String

-- A device of a location document, with the types of its services and its sub-devices.
pub record DeviceInfo : Type 0 where
  pub friendly_name : Option String
  pub model_name : Option String
  pub model_number : Option String
  pub model_description : Option String
  pub manufacturer : Option String
  pub service_list : Option ℕ

mutual
  pub data XmlDevice : Type 0 where
    xml_device : DeviceInfo → List String → XmlDevices → XmlDevice

  pub data XmlDevices : Type 0 where
    last_device : XmlDevices
    next_device : XmlDevice → XmlDevices → XmlDevices

-- The response that brought a location document.
pub record Response : Type 0 where
  pub url : Option String
  pub headers : Option ℕ
  pub text : Option String

-- A datagram with a complete header. `type` is `NT` of a notification and `ST` otherwise; `usn` stands
-- by its UTF-16 units, and `usn_match` is the range of the first match of the regular expression in
-- it; `host` is the host of the location, if it parses with a scheme and a host; `sender` is the
-- address that the datagram came from.
pub record Datagram : Type 0 where
  pub method : Option String
  pub code : ℕ
  pub type : Option String
  pub usn : Option (List ℕ)
  pub usn_match : Option (ℕ × ℕ)
  pub nts : Option String
  pub location : Option String
  pub host : Option String
  pub sender : String

-- What is read of a datagram, under the UUID of its service.
pub record Announcement : Type 0 where
  pub uuid : String
  pub type : Option String
  pub nts : Option String
  pub location : Option String
  pub host : Option String
  pub sender : String

pub data SsdpEvent : Type 0 where
  did_find did_lose : ServiceDescription → SsdpEvent
  search_request : String → SsdpEvent
  load_location : String → String → SsdpEvent
  cancel_loads : SsdpEvent

-- `refresh_timer` is whether the timer is set.
pub record Provider : Type 0 where
  pub is_running : Bool
  pub refresh_timer : Bool
  pub service_filters : List Filter
  pub found_services : Dict ServiceDescription
  pub hello_devices : Dict ServiceDescription

-- `addDeviceFilter:`, behind its assertions.
unfoldable pub add_device_filter : List Filter → Filter → List Filter
add_device_filter filters f = filters ++ f ∷ []

-- `removeDeviceFilter:` takes the first filter with the service id out.
unfoldable pub remove_device_filter : List Filter → String → List Filter
remove_device_filter [] service_id = []
remove_device_filter (f ∷ fs) service_id =
    let rest = remove_device_filter fs service_id in
    if text_eq f.service_id service_id then fs else f ∷ rest

abbrev pub has_filter : Option String → Filter → Bool
has_filter type f = is_equal_to_string (some f.filter) type

unfoldable pub is_searching_for_filter : List Filter → Option String → Bool
is_searching_for_filter filters type = any (has_filter type) filters

unfoldable pub service_ids_for_filter : List Filter → Option String → List String
service_ids_for_filter filters type = map (λ f. f.service_id) (select (has_filter type) filters)

-- `requiredServicesForFilter:`. The predicate `LIKE` is equality for a type without wildcards.
unfoldable pub required_services_for_filter : List Filter → Option String → List String
required_services_for_filter filters type = elim (find_first (has_filter type) filters) [
  | none ↦ []
  | some f ↦ f.required_services
]

-- `notifyDelegateOfNewService:` and `notifyDelegateOfLostService:`: a copy for each service id.
unfoldable pub notify_delegate :
    (ServiceDescription → SsdpEvent) → Provider → ServiceDescription → List SsdpEvent
notify_delegate event p s =
    map (λ service_id. event (record s { service_id = some service_id }))
      (service_ids_for_filter p.service_filters s.type)

-- The services that were last detected before `kill_point` are lost.
unfoldable pub kill_inactive : ℕ → Provider → Provider × List SsdpEvent
kill_inactive kill_point p = (
  record p {
    found_services = select (λ e. not (ltb e.1.last_detection kill_point)) p.found_services;
  },
  notify_lost (select (λ s. ltb s.last_detection kill_point) (all_values p.found_services)),
)
  where
    notify_lost : List ServiceDescription → List SsdpEvent
    notify_lost [] = []
    notify_lost (s ∷ ss) = notify_delegate did_lose p s ++ notify_lost ss

-- `sendRequestForFilter:` for each filter; six attempts at intervals of ten make the kill point.
unfoldable pub send_search_requests : Bool → ℕ → Provider → List Filter → Provider × List SsdpEvent
send_search_requests should_kill now p [] = (p, [])
send_search_requests should_kill now p (f ∷ fs) =
    let (p', lost) : Provider × List SsdpEvent =
      if should_kill then kill_inactive (now - 60) p else (p, []) in
    let (p'', events) = send_search_requests should_kill now p' fs in
    (p'', lost ++ search_request f.filter ∷ events)

unfoldable pub start_discovery : ℕ → Provider → Provider × List SsdpEvent
start_discovery now p =
    if p.is_running
    then (p, [])
    else if p.refresh_timer
    then (record p { is_running = true }, [])
    else (let (p', events) =
          send_search_requests false now (record p { is_running = true }) p.service_filters in
        (record p' { refresh_timer = true }, events))

unfoldable pub stop_discovery : Provider → Provider × List SsdpEvent
stop_discovery p = (
  record p { is_running = false; refresh_timer = false; found_services = []; hello_devices = [] },
  cancel_loads ∷ [],
)

-- A bye-bye, by what was found under the UUID.
unfoldable pub bye_at : Option ServiceDescription → Provider → String → Provider × List SsdpEvent
bye_at none p u = (p, [])
bye_at (some s) p u =
    (record p { found_services = remove_object u p.found_services }, notify_delegate did_lose p s)

abbrev pub new_service : Announcement → ℕ → ServiceDescription
new_service g now = record {
  address = or_else g.host (some g.sender);
  service_id = none;
  port = 3001;
  uuid = some g.uuid;
  type = g.type;
  version = none;
  friendly_name = none;
  manufacturer = none;
  model_name = none;
  model_description = none;
  model_number = none;
  command_url = none;
  location_xml = none;
  service_list = none;
  location_response_headers = none;
  last_detection = now;
  device = none;
}

-- An advertisement or answer with the location `l`, by what was found or greeted under the UUID.
unfoldable pub advertise_at :
    Option ServiceDescription
    → Option ServiceDescription
    → Provider
    → Announcement
    → String
    → ℕ
    → Provider × List SsdpEvent
advertise_at (some s) hello p g l now = (
  record p {
    found_services = set_object g.uuid (record s { last_detection = now }) p.found_services;
  },
  [],
)
advertise_at none (some s) p g l now = (p, [])
advertise_at none none p g l now = (
  record p { hello_devices = set_object g.uuid (new_service g now) p.hello_devices },
  load_location l g.uuid ∷ [],
)

unfoldable pub advertise : Option String → Provider → Announcement → ℕ → Provider × List SsdpEvent
advertise none p g now = (p, [])
advertise (some l) p g now =
    if text_eq l ""
    then (p, [])
    else advertise_at (object_for_key g.uuid p.found_services)
        (object_for_key g.uuid p.hello_devices) p g l now

-- The handler behind the reading of the UUID.
unfoldable pub heed : Provider → Announcement → ℕ → Provider × List SsdpEvent
heed p g now =
    if text_eq g.uuid ""
    then (p, [])
    else if is_equal_to_string g.nts (some "ssdp:byebye")
    then bye_at (object_for_key g.uuid p.found_services) p g.uuid
    else advertise g.location p g now
