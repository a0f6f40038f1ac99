-- ===== src/Ssdp/Devices.antt =====
-- Discovery/Providers/SSDPDiscoveryProvider.m: the search of a location document for a device, and
-- what a loaded document changes.
use connect_sdk_i_os_core.Prelude.{
  String, ◌≡◌, refl, Bool, List, [], ◌∷◌, ◌++◌, Option, none, some, if◌then◌else◌, all, find_first,
  contains_object, object_for_key, set_object, remove_object, Bool-cases, inl, inr, or_else, sym,
}
use connect_sdk_i_os_core.Description.{ServiceDescription}
use connect_sdk_i_os_core.Ssdp.{
  XmlDevice, XmlDevices, xml_device, last_device, next_device, Response, Provider, SsdpEvent,
  did_find, notify_delegate, required_services_for_filter,
}

-- `allRequiredServices:areInDiscoveredServices:`.
abbrev pub has_required : List String → List String → Bool
has_required required discovered = all (λ s. contains_object s discovered) required

-- `device:containingRequiredServices:`, and its loop over the sub-devices.
unfoldable mutual
  pub device_containing : List String → XmlDevice → Option XmlDevice
  device_containing required (xml_device info types subs) =
      let below = first_containing required subs in
      if has_required required types then some (xml_device info types subs) else below

  pub first_containing : List String → XmlDevices → Option XmlDevice
  first_containing required last_device = none
  first_containing required (next_device d ds) =
      let rest = first_containing required ds in or_else (device_containing required d) rest

-- The devices of a document in the order of the document.
unfoldable mutual
  pub in_order : XmlDevice → List XmlDevice
  in_order (xml_device info types subs) = xml_device info types subs ∷ all_in_order subs

  pub all_in_order : XmlDevices → List XmlDevice
  all_in_order last_device = []
  all_in_order (next_device d ds) = in_order d ++ all_in_order ds

abbrev pub serves_all : List String → XmlDevice → Bool
serves_all required (xml_device info types subs) = has_required required types

find_first-append :
    {A : Type 0} (p : A → Bool) (xs ys : List A)
    → find_first p (xs ++ ys) ≡ or_else (find_first p xs) (find_first p ys)
unfolding find_first
find_first-append p [] ys = refl
find_first-append p (x ∷ xs) ys = elim (Bool-cases (p x)) [
  | inl e ↦ rw e
  | inr e ↦ rw e (find_first-append p xs ys)
]

mutual
  unfolding device_containing first_containing in_order all_in_order find_first

  search_device :
      (required : List String) (d : XmlDevice)
      → device_containing required d ≡ find_first (serves_all required) (in_order d)
  search_device required (xml_device info types subs) =
      elim (Bool-cases (has_required required types)) [
        | inl e ↦ rw e
        | inr e ↦ rw e (search_devices required subs)
      ]

  search_devices :
      (required : List String) (ds : XmlDevices)
      → first_containing required ds ≡ find_first (serves_all required) (all_in_order ds)
  search_devices required last_device = refl
  search_devices required (next_device d ds) =
      rw (search_device required d, search_devices required ds)
        (sym (find_first-append (serves_all required) (in_order d) (all_in_order ds)))

-- The search answers the first device in the order of the document that has all the services
-- required, be it the root or a sub-device at any depth, and nil exactly if there is none.
pub device_containing-first :
    (required : List String) (d : XmlDevice)
    → device_containing required d ≡ find_first (serves_all required) (in_order d)
device_containing-first = search_device

-- The description of a greeted service with what the document says.
abbrev pub completed :
    Option String → XmlDevice → Response → ServiceDescription → ServiceDescription
completed type (xml_device info types subs) r s = record s {
  type = type;
  friendly_name = info.friendly_name;
  model_name = info.model_name;
  model_number = info.model_number;
  model_description = info.model_description;
  manufacturer = info.manufacturer;
  location_xml = r.text;
  service_list = info.service_list;
  command_url = r.url;
  location_response_headers = r.headers;
}

-- A service counts as found when its document has a device for the filter and it is still greeted.
unfoldable pub loaded_at :
    Option XmlDevice
    → Option ServiceDescription
    → Provider
    → String
    → Option String
    → Response
    → Provider × List SsdpEvent
loaded_at none hello p u type r = (p, [])
loaded_at (some d) none p u type r = (p, [])
loaded_at (some d) (some s) p u type r = (
  record p { found_services = set_object u (completed type d r s) p.found_services },
  notify_delegate did_find p (completed type d r s),
)

abbrev pub matching : Provider → Option String → Option XmlDevice → Option XmlDevice
matching p type none = none
matching p type (some d) = device_containing (required_services_for_filter p.service_filters type) d

-- The completion handler of `getLocationData:forKey:andType:`; `xml` is the root device, if the
-- document parses and has one.
unfoldable pub location_loaded :
    Provider → String → Option String → Option XmlDevice → Response → Provider × List SsdpEvent
location_loaded p u type xml r =
    let (p', events) =
      loaded_at (matching p type xml) (object_for_key u p.hello_devices) p u type r in
    (record p' { hello_devices = remove_object u p'.hello_devices }, events)
