-- ===== src/Tests/Managers.antt =====
-- Discovery/DiscoveryManager.m at work.
use connect_sdk_i_os_core.Prelude.{
  ℕ, ◌<◌, String, ◌≡◌, refl, ◌⊎◌, inl, inr, true, false, List, [], ◌∷◌, Option, none, some, text_eq,
  ◌>>=◌, object_for_key, object_for_key-AllEntries, arith, ltb,
}
use connect_sdk_i_os_core.Description.{ServiceDescription}
use connect_sdk_i_os_core.Service.{DeviceService}
use connect_sdk_i_os_core.Device.{Device, has_services}
use connect_sdk_i_os_core.Manager.{Manager, ManagerEvent, device_is_compatible}
use connect_sdk_i_os_core.Manager.Listing.{expected}
use connect_sdk_i_os_core.Manager.Services.{accepts_description, add_service_description}
use connect_sdk_i_os_core.Manager.Services.Keeps.{IsServed, add_service_description-Serves, Serves}
use connect_sdk_i_os_core.Manager.Discovery.{did_find_service, did_lose_service}
use connect_sdk_i_os_core.Manager.Discovery.Consistency.{IsConsistent, Settles}
use connect_sdk_i_os_core.Manager.Discovery.Finding.{IsReported, did_find_service-IsConsistent}
use connect_sdk_i_os_core.Manager.Discovery.Losing.{did_lose_service-IsConsistent}
use connect_sdk_i_os_core.Manager.Filtering.{set_capability_filters, set_capability_filters-exact}
use connect_sdk_i_os_core.Manager.Search.{purge_device_list}
use connect_sdk_i_os_core.Manager.Search.Providers.{
  runs, step, starts, step-runs, purge_device_list-runs,
}
use connect_sdk_i_os_core.Tests.{tv, tv_description, dial_description, living_room}
use connect_sdk_i_os_core.Manager.Reports.{
  reports_found, reports_lost, reports_error, handle_reports, handle_reports-IsConsistent,
}
use connect_sdk_i_os_core.Manager.Registration.{
  ServiceClass, DiscoveryClass, Registry, register_device_service, unregister_device_service,
  unregister_device_service-raises,
}
use connect_sdk_i_os_core.Tests.Services.{living_room-IsFiled}

abbrev pub objects : ℕ → Device
objects r = living_room

-- One device is known, and the manager searches with two providers.
abbrev pub home : Manager
home = record {
  objects = objects;
  fresh = 1;
  all_devices = ("10.0.0.2", 0) ∷ [];
  compatible_devices = ("10.0.0.2", 0) ∷ [];
  capability_filters = [];
  device_classes = ("webOS TV", "WebOSTVService") ∷ [];
  providers = 0 ∷ 1 ∷ [];
  use_device_store = true;
  has_delegate = true;
  has_picker = false;
  current_ssid = some "home";
  searching = true;
  should_resume_search = false;
  ssid_timer = true;
}

abbrev pub instantiate : String → Option String → DeviceService
instantiate service_class config_uuid = record tv {
  service_class = service_class;
  config_uuid = config_uuid;
}

living_room-IsServed : IsServed "10.0.0.2" living_room
unfolding has_services ltb
living_room-IsServed = record { served = refl; filed = living_room-IsFiled; at_address = refl }

abbrev IsHome : String → ℕ → Type 0
IsHome a r = IsServed a (objects r) × (r < 1)

IsHome-entry : (a : String) (r : ℕ) → object_for_key a home.all_devices ≡ some r → IsHome a r
IsHome-entry a r e =
    object_for_key-AllEntries IsHome a r home.all_devices ((living_room-IsServed, omega arith), tt)
      e

home_exact : (a : String) → object_for_key a home.compatible_devices ≡ expected home a
unfolding device_is_compatible
home_exact a =
    elim (object_for_key a home.all_devices)
      as (λ o. o ≡ elim o [ none ↦ none | some r ↦ some r ]) [ none ↦ refl | some r ↦ refl ]

pub home-IsConsistent : IsConsistent home
home-IsConsistent = record {
  served = λ a r e. (IsHome-entry a r e).0;
  made = λ a r e. (IsHome-entry a r e).1;
  exact = home_exact;
}

-- A television that the store does not know.
abbrev pub kitchen : ServiceDescription
kitchen = record tv_description { address = some "10.0.0.7"; uuid = some "uid-7" }

pub kitchen-IsReported : IsReported home kitchen none
unfolding object_for_key text_eq
kitchen-IsReported = record {
  a = "10.0.0.7";
  k = "webOS TV";
  service_class = "WebOSTVService";
  address_set = refl;
  name_set = refl;
  registered = refl;
  stored_idle = λ r e. cc e;
}

did_find_service-IsConsistent_example :
    Settles (did_find_service instantiate home kitchen none none 12)
did_find_service-IsConsistent_example =
    did_find_service-IsConsistent instantiate home kitchen none 12 none home-IsConsistent
      kitchen-IsReported

did_lose_service-IsConsistent_example : Settles (did_lose_service home dial_description)
did_lose_service-IsConsistent_example =
    did_lose_service-IsConsistent home dial_description home-IsConsistent

abbrev filters : List (List String)
filters = ("Launcher.Any" ∷ []) ∷ []

set_capability_filters-exact_example :
    (m' : Manager) × (events : List ManagerEvent) × (set_capability_filters home filters
      ≡ some (m', events))
    × (m'.capability_filters ≡ filters)
    × (m'.all_devices ≡ home.all_devices)
    × ((a : String) → object_for_key a m'.compatible_devices ≡ expected m' a)
set_capability_filters-exact_example =
    set_capability_filters-exact home filters (unfold object_for_key in refl, tt) (refl, tt)

abbrev tv_added : Option Device
tv_added =
    add_service_description instantiate (some "WebOSTVService") tv_description none living_room

add_service_description-Serves_example :
    ((accepts_description "WebOSTVService" tv_description ≡ false) × (tv_added ≡ some living_room))
    ⊎ Serves instantiate tv_description "10.0.0.2" "webOS TV" "WebOSTVService" refl refl tv_added
add_service_description-Serves_example =
    add_service_description-Serves instantiate tv_description "10.0.0.2" "webOS TV" "WebOSTVService"
      refl refl none living_room living_room-IsFiled

abbrev registers_nothing : Manager → Manager
registers_nothing m = m

step-runs_example :
    runs 1 true (step registers_nothing home starts).1
    ≡ (step registers_nothing home starts).0.searching
step-runs_example =
    step-runs registers_nothing home starts 1 true (inr (inl refl)) (inr (inl refl)) refl

abbrev idle : Manager
idle = record home { searching = false }

purge_device_list-runs_example : runs 1 false (purge_device_list idle).1 ≡ true
purge_device_list-runs_example = purge_device_list-runs idle 1 false (inr (inl refl))

handle_reports-IsConsistent_example : Settles (
    handle_reports instantiate home
      (reports_found kitchen none none 12 ∷ reports_lost dial_description ∷ reports_error 4 ∷ []))
handle_reports-IsConsistent_example =
    handle_reports-IsConsistent instantiate home
      (reports_found kitchen none none 12 ∷ reports_lost dial_description ∷ reports_error 4 ∷ [])
      home-IsConsistent
      (kitchen-IsReported, λ m' events e. (tt, λ m'' later f. (tt, λ m''' last g. tt)))

abbrev roku_class : ServiceClass
roku_class = record { name = "RokuService"; is_device_service = true; parameters = some "Roku" }

abbrev ssdp_discovery : DiscoveryClass
ssdp_discovery = record { name = "SSDPDiscoveryProvider"; is_provider = true; parameters = none }

abbrev registry : Registry
registry = record { device_classes = []; discovery_providers = []; fresh = 1 }

same_class : text_eq ssdp_discovery.name ssdp_discovery.name ≡ true
unfolding text_eq
same_class = refl

unregister_device_service-raises_example :
    (register_device_service text_eq roku_class ssdp_discovery registry
      >>= unregister_device_service text_eq true roku_class ssdp_discovery)
    ≡ none
unregister_device_service-raises_example =
    unregister_device_service-raises text_eq roku_class ssdp_discovery registry "Roku" true refl
      refl refl same_class refl
