-- ===== src/Tests/NetServices.antt =====
-- The ZeroConf provider at work.
use connect_sdk_i_os_core.Prelude.{
  ℕ, ◌+◌, ◌<◌, String, ◌≡◌, refl, ◌↔◌, true, List, [], ◌∷◌, if◌then◌else◌, ◌==◌, Option, none, some,
  codes, length, substring_with_range, drop_units, take_units, object_for_key, range_of_string,
  set_object, text_eq,
}
use connect_sdk_i_os_core.Description.{ServiceDescription}
use connect_sdk_i_os_core.Description.Copies.{description_with_address}
use connect_sdk_i_os_core.ZeroConf.{
  ZeroConf, NetService, ip4, other_family, tells_found, did_resolve_address, resolved,
  describe_service, uuid_of, first_ip4, remove_name, service_id_from_filter, id_of_type,
}
use connect_sdk_i_os_core.ZeroConf.Naming.{did_resolve_address-raises_iff}
use connect_sdk_i_os_core.ZeroConf.Knowledge.{IsWatched, hear_events}
use connect_sdk_i_os_core.ZeroConf.Watching.{resolves, perform, perform-IsWatched}

abbrev no_url : String → ℕ → Option String
no_url address port = none

-- The text of the units, of those that stand below.
abbrev as_address : List ℕ → String
as_address units = if length units == 14 then "AA:BB:CC:DD:EE" else ""

abbrev speaker : NetService
speaker = record {
  name = "Speaker";
  type = some "_airplay._tcp.";
  addresses = other_family ∷ ip4 "10.0.0.9" 7000 ∷ [];
  txt_record = some (codes "deviceid=AA:BB:CC:DD:EE:FF");
}

-- The speaker was found and is being resolved.
abbrev looking : ZeroConf
looking = record {
  service_filters = record { filter = "_airplay._tcp"; service_id = some "AirPlay" } ∷ [];
  is_running = true;
  has_browser = true;
  resolving_devices = "Speaker" ∷ [];
  discovered_devices = [];
  finds = true;
  loses = true;
}

-- Fourteen characters are taken of the seventeen of the address.
abbrev speaker_description : ServiceDescription
speaker_description = record {
  address = some "10.0.0.9";
  service_id = some "AirPlay";
  port = 7000;
  uuid = some "AA:BB:CC:DD:EE";
  type = none;
  version = none;
  friendly_name = some "Speaker";
  manufacturer = none;
  model_name = none;
  model_description = none;
  model_number = none;
  command_url = none;
  location_xml = none;
  service_list = none;
  location_response_headers = none;
  last_detection = 3;
  device = none;
}

abbrev found_speaker : ZeroConf
found_speaker = record looking {
  resolving_devices = [];
  discovered_devices = ("Speaker", speaker_description) ∷ [];
}

resolves_speaker :
    perform no_url 3 as_address (resolves speaker) looking
    ≡ some (found_speaker, tells_found speaker_description ∷ [])
unfolding perform did_resolve_address resolved describe_service uuid_of first_ip4 remove_name
    service_id_from_filter id_of_type substring_with_range drop_units take_units range_of_string
    set_object text_eq description_with_address
resolves_speaker = refl

looking-IsWatched : IsWatched looking []
looking-IsWatched = record {
  running = refl;
  hears = (refl, refl);
  named = tt;
  known = λ k. refl;
  apart = λ k m. unfold object_for_key in refl;
}

perform-IsWatched_example :
    IsWatched found_speaker (hear_events (tells_found speaker_description ∷ []) [])
perform-IsWatched_example =
    perform-IsWatched no_url 3 as_address (resolves speaker) looking found_speaker []
      (tells_found speaker_description ∷ []) looking-IsWatched resolves_speaker

abbrev short_record : NetService
short_record = record speaker { txt_record = some (codes "deviceid=AA:BB") }

did_resolve_address-raises_iff_example :
    (did_resolve_address no_url 3 as_address short_record looking ≡ none)
    ↔ (length (codes "deviceid=AA:BB") < 0 + 23)
unfolding first_ip4 range_of_string
did_resolve_address-raises_iff_example =
    did_resolve_address-raises_iff no_url 3 as_address short_record looking "10.0.0.9"
      (codes "deviceid=AA:BB") 7000 0 refl refl refl
