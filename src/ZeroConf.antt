-- ===== src/ZeroConf.antt =====
-- Discovery/Providers/ZeroConfDiscoveryProvider.m: the services that the system's browser finds, the
-- resolution of their addresses, and what the delegate is told. The browser and the net services are
-- of the system: what they are asked is a list of events. `none` is an exception of Foundation.
pub mod Naming
pub mod Knowledge
pub mod Watching
use connect_sdk_i_os_core.Prelude.{
  ℕ, zero, suc, ◌+◌, String, Bool, true, false, not, ◌&&◌, ◌||◌, List, [], ◌∷◌, ◌++◌, Option, none,
  some, if◌then◌else◌, is_set, ◌>>=◌, Dict, object_for_key, set_object, remove_object, codes,
  range_of_string, substring_with_range, length, text_eq, is_equal_to_string, map, contains_object,
}
use connect_sdk_i_os_core.Description.{ServiceDescription}
use connect_sdk_i_os_core.Description.Copies.{description_with_address}

-- A filter has the type that is searched for, which `addDeviceFilter:` asserts to be there.
pub record ZeroConfFilter : Type 0 where
  pub filter : String
  pub service_id : Option String

-- An address as the parser of `sockaddr` sees it: of IPv4, or of another family.
pub data SocketAddress : Type 0 where
  ip4 : String → ℕ → SocketAddress
  other_family : SocketAddress

-- What is read of a net service. The TXT record is the text that is made of its data, by its UTF-16
-- units, which is what the class counts in it; it is nil where the data is no UTF-8.
pub record NetService : Type 0 where
  pub name : String
  pub type : Option String
  pub addresses : List SocketAddress
  pub txt_record : Option (List ℕ)

pub data ZeroConfEvent : Type 0 where
  tells_found : ServiceDescription → ZeroConfEvent
  tells_lost : ServiceDescription → ZeroConfEvent
  resolve : String → ZeroConfEvent
  search_for : String → ZeroConfEvent
  stop_browser : ZeroConfEvent

-- `finds` and `loses` are whether there is a delegate that responds to the method. The services that
-- are being resolved stand by their names.
pub record ZeroConf : Type 0 where
  pub service_filters : List ZeroConfFilter
  pub is_running : Bool
  pub has_browser : Bool
  pub resolving_devices : List String
  pub discovered_devices : Dict ServiceDescription
  pub finds : Bool
  pub loses : Bool

abbrev pub Answer : Type 0
Answer = ZeroConf × List ZeroConfEvent

unfoldable pub search_for_services : List ZeroConfFilter → List ZeroConfEvent
search_for_services = map (λ f. search_for f.filter)

-- The timer fires at once, and every ten seconds.
unfoldable pub start_discovery : ZeroConf → Answer
start_discovery z =
    let started = record z {
      has_browser = true;
      resolving_devices = [];
      discovered_devices = [];
      is_running = true;
    } in
    if z.is_running then (z, []) else (started, search_for_services z.service_filters)

abbrev pub stop_searching : ZeroConf → List ZeroConfEvent
stop_searching z = if z.has_browser then stop_browser ∷ [] else []

unfoldable pub stop_discovery : ZeroConf → Answer
stop_discovery z =
    let stopped = record z {
      is_running = false;
      resolving_devices = [];
      discovered_devices = [];
    } in
    if not z.is_running then (z, []) else (stopped, stop_searching z)

unfoldable pub add_device_filter : ZeroConfFilter → ZeroConf → ZeroConf
add_device_filter f z = record z { service_filters = z.service_filters ++ (f ∷ []) }

-- The first filter with the service id goes.
unfoldable pub remove_first : Option String → List ZeroConfFilter → List ZeroConfFilter
remove_first k [] = []
remove_first k (f ∷ fs) =
    let rest = remove_first k fs in if is_equal_to_string f.service_id k then fs else f ∷ rest

unfoldable pub remove_device_filter : Option String → ZeroConf → ZeroConf
remove_device_filter k z = record z { service_filters = remove_first k z.service_filters }

unfoldable pub is_known : String → ZeroConf → Bool
is_known name z =
    contains_object name z.resolving_devices || is_set (object_for_key name z.discovered_devices)

abbrev pub stop_if_last : Bool → List ZeroConfEvent
stop_if_last more_coming = if more_coming then [] else stop_browser ∷ []

-- `netServiceBrowser:didFindService:moreComing:`.
unfoldable pub find_service : NetService → Bool → ZeroConf → Answer
find_service s more_coming z =
    let z' = record z { resolving_devices = s.name ∷ z.resolving_devices } in
    if is_known s.name z then (z, []) else (z', resolve s.name ∷ stop_if_last more_coming)

abbrev pub tell_lost : ZeroConf → ServiceDescription → List ZeroConfEvent
tell_lost z d = if z.loses then tells_lost d ∷ [] else []

abbrev pub removed : String → Bool → ZeroConf → Option ServiceDescription → Answer
removed name more_coming z none = (z, [])
removed name more_coming z (some d) = (
  record z { discovered_devices = remove_object name z.discovered_devices },
  tell_lost z d ++ stop_if_last more_coming,
)

-- `netServiceBrowser:didRemoveService:moreComing:`.
unfoldable pub remove_service : NetService → Bool → ZeroConf → Answer
remove_service s more_coming z =
    removed s.name more_coming z (object_for_key s.name z.discovered_devices)

-- The first address of IPv4.
unfoldable pub first_ip4 : List SocketAddress → Option (String × ℕ)
first_ip4 [] = none
first_ip4 (ip4 address port ∷ rest) = some (address, port)
first_ip4 (other_family ∷ rest) = first_ip4 rest

abbrev pub mac_address_length : ℕ
mac_address_length = 14

-- The text of the library with the UTF-16 units given.
module _ (string_of : List ℕ → String) where
  abbrev pub device_id_at : String → List ℕ → Option ℕ → Option (Option String)
  device_id_at name txt none = some (some name)
  device_id_at name txt (some i) = do
    units ← substring_with_range (i + 9) mac_address_length txt
    some (some (string_of units))

  -- The UUID. A message to a nil record answers the location 0, where there is nothing to read.
  unfoldable pub uuid_of : NetService → Option (Option String)
  uuid_of s = elim s.txt_record [
    | none ↦ some none
    | some txt ↦ device_id_at s.name txt (range_of_string (codes "deviceid=") txt)
  ]

-- `serviceIdFromFilter:`.
unfoldable pub id_of_type : List ZeroConfFilter → String → Option String
id_of_type [] type = none
id_of_type (f ∷ fs) type =
    let rest = id_of_type fs type in
    if is_set (range_of_string (codes f.filter) (codes type)) then f.service_id else rest

unfoldable pub service_id_from_filter : Option String → ZeroConf → Option String
service_id_from_filter none z = none
service_id_from_filter (some type) z =
    if text_eq type "" then none else id_of_type z.service_filters type

unfoldable pub remove_name : String → List String → List String
remove_name name [] = []
remove_name name (x ∷ xs) =
    let rest = remove_name name xs in if text_eq x name then rest else x ∷ rest

unfoldable pub resolved : String → ZeroConf → ZeroConf
resolved name z = record z { resolving_devices = remove_name name z.resolving_devices }

-- `netService:didNotResolve:`.
unfoldable pub did_not_resolve : NetService → ZeroConf → ZeroConf
did_not_resolve s z = resolved s.name z

abbrev pub tell_found : ZeroConf → ServiceDescription → List ZeroConfEvent
tell_found z d = if z.finds then tells_found d ∷ [] else []

-- The URL of the address and port is made by the library, at the time given.
module _ (command_url : String → ℕ → Option String) (now : ℕ) where
  unfoldable pub describe_service :
      NetService → ZeroConf → String → ℕ → Option String → ServiceDescription
  describe_service s z address port uuid =
      record (description_with_address now (some address) (some s.name)) {
        friendly_name = some s.name;
        service_id = service_id_from_filter s.type z;
        port = port;
        uuid = uuid;
        command_url = command_url address port;
      }

  abbrev pub file_service : String → ServiceDescription → ZeroConf → Answer
  file_service name d z =
      (record z { discovered_devices = set_object name d z.discovered_devices }, tell_found z d)

  module _ (string_of : List ℕ → String) where
    abbrev pub resolved_at : NetService → ZeroConf → Option (String × ℕ) → Option Answer
    resolved_at s z none = some (z, [])
    resolved_at s z (some (address, port)) = do
      uuid ← uuid_of string_of s
      some (file_service s.name (describe_service s z address port uuid) z)

    -- `netServiceDidResolveAddress:`.
    unfoldable pub did_resolve_address : NetService → ZeroConf → Option Answer
    did_resolve_address s z = resolved_at s (resolved s.name z) (first_ip4 s.addresses)
