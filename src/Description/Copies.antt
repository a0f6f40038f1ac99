-- ===== src/Description/Copies.antt =====
-- Services/Config/ServiceDescription.m: new descriptions, and copies.
use connect_sdk_i_os_core.Prelude.{ℕ, String, ◌≡◌, sym, ap, ◌↔◌, true, Option, none}
use connect_sdk_i_os_core.Description.{ServiceDescription}
use connect_sdk_i_os_core.Description.Equality.{
  is_equal_to_service_description, is_equal_to_service_description_iff,
}

-- `initWithAddress:UUID:` at the time given.
unfoldable pub description_with_address : ℕ → Option String → Option String → ServiceDescription
description_with_address now address uuid = record {
  address = address;
  service_id = none;
  port = 0;
  uuid = uuid;
  type = none;
  version = none;
  friendly_name = none;
  manufacturer = none;
  model_name = none;
  model_description = none;
  model_number = none;
  command_url = none;
  location_xml = none;
  service_list = none;
  location_response_headers = none;
  last_detection = now;
  device = none;
}

unfoldable pub copy_description : ℕ → ServiceDescription → ServiceDescription
copy_description now d = record (description_with_address now d.address d.uuid) {
  service_id = d.service_id;
  port = d.port;
  type = d.type;
  version = d.version;
  friendly_name = d.friendly_name;
  manufacturer = d.manufacturer;
  model_name = d.model_name;
  model_description = d.model_description;
  model_number = d.model_number;
  command_url = d.command_url;
  location_response_headers = d.location_response_headers;
  location_xml = d.location_xml;
  service_list = d.service_list;
}

-- A copy equals the description exactly if that has no object of a provider, which is not copied.
pub copy_description-is_equal_iff :
    (now : ℕ) (d : ServiceDescription)
    → (is_equal_to_service_description (copy_description now d) d ≡ true) ↔ (d.device ≡ none)
unfolding copy_description description_with_address
copy_description-is_equal_iff now d = (
  λ x. sym (
      ap (λ (c : ServiceDescription). c.device)
        ((is_equal_to_service_description_iff (copy_description now d) d).0 x)),
  λ gone. (is_equal_to_service_description_iff (copy_description now d) d).1 (same gone),
)
  where
    same : d.device ≡ none → copy_description now d ≡ record d { last_detection = now }
    same gone = λ i. record d { last_detection = now; device = sym gone i }
