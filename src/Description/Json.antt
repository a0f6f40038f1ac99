-- ===== src/Description/Json.antt =====
-- Services/Config/ServiceDescription.m: the description of a service as JSON, and read again.
use connect_sdk_i_os_core.Prelude.{
  ℕ, ◌+◌, ◌-◌, ◌%◌, ◌^◌, ◌<◌, String, ◌≡◌, refl, Option, none, some, if◌then◌else◌, or_else, ◌>>=◌,
  Dict, [], object_for_key, put_value, object_for_key-put_value, text_eq, arith, ltb, ◌==◌,
}
use connect_sdk_i_os_core.Description.{ServiceDescription}

-- What stands in the dictionary.
pub data Entry : Type 0 where
  text : String → Entry
  number : ℕ → Entry

abbrev pub text_entry : Option String → Option Entry
text_entry none = none
text_entry (some s) = some (text s)

-- A port that is 0 is left out.
abbrev pub port_entry : ℕ → Option Entry
port_entry n = if n == 0 then none else some (number n)

unfoldable pub to_json_object : ServiceDescription → Dict Entry
to_json_object d = put_value "commandURL" (text_entry d.command_url) (
    put_value "modelNumber" (text_entry d.model_number) (
      put_value "modelDescription" (text_entry d.model_description) (
        put_value "modelName" (text_entry d.model_name) (
          put_value "manufacturer" (text_entry d.manufacturer) (
            put_value "friendlyName" (text_entry d.friendly_name) (
              put_value "version" (text_entry d.version) (
                put_value "type" (text_entry d.type) (
                  put_value "UUID" (text_entry d.uuid) (
                    put_value "port" (port_entry d.port) (
                      put_value "address" (text_entry d.address)
                        (put_value "serviceId" (text_entry d.service_id) [])))))))))))

-- A number under a key of a text is not considered, nor the other way round.
abbrev pub text_at : Option Entry → Option String
text_at none = none
text_at (some (text s)) = some s
text_at (some (number n)) = none

-- `intValue` of the number, as an unsigned word of 64 bits; that of nil is 0.
abbrev pub int_value : ℕ → ℕ
int_value n = if ltb (n % 2 ^ 32) (2 ^ 31) then n % 2 ^ 32 else (n % 2 ^ 32) + (2 ^ 64 - 2 ^ 32)

abbrev pub port_at : Option Entry → ℕ
port_at none = 0
port_at (some (text s)) = 0
port_at (some (number n)) = int_value n

ruleset lookups = object_for_key-put_value

text_at-text_entry : (s : Option String) → text_at (or_else (text_entry s) none) ≡ s
text_at-text_entry none = refl
text_at-text_entry (some s) = refl

port_at-port_entry : (n : ℕ) → n < 2 ^ 31 → port_at (or_else (port_entry n) none) ≡ n
port_at-port_entry n h = ground arith

-- `URLWithString:` answers nil for a text that is no URL. A URL stands as its absolute text.
module _ (url_with_string : String → Option String) where
  unfoldable pub description_from_json_object : Dict Entry → ServiceDescription
  description_from_json_object json = record {
    address = text_at (object_for_key "address" json);
    service_id = text_at (object_for_key "serviceId" json);
    port = port_at (object_for_key "port" json);
    uuid = text_at (object_for_key "UUID" json);
    type = text_at (object_for_key "serviceId" json);
    version = text_at (object_for_key "version" json);
    friendly_name = text_at (object_for_key "friendlyName" json);
    manufacturer = text_at (object_for_key "manufacturer" json);
    model_name = text_at (object_for_key "modelName" json);
    model_description = text_at (object_for_key "modelDescription" json);
    model_number = text_at (object_for_key "modelNumber" json);
    command_url = text_at (object_for_key "commandURL" json) >>= url_with_string;
    location_xml = none;
    service_list = none;
    location_response_headers = none;
    last_detection = 0;
    device = none;
  }

  -- A URL of the description is read again as it is.
  abbrev pub IsReadable : Option String → Type 0
  IsReadable none = Unit
  IsReadable (some u) = url_with_string u ≡ some u

  url_at : (u : Option String) → IsReadable u → (u >>= url_with_string) ≡ u
  url_at none h = refl
  url_at (some u) h = h

  -- A description that was stored and read again, with a port below 2 ^ 31 and a URL that the
  -- system reads again: all texts, the port and the URL are as before but the type, which is the
  -- service id; what the device answered, its headers, its services, the time and the object of the
  -- provider are gone.
  pub description_from_json_object-to_json_object :
      (d : ServiceDescription)
      → d.port < 2 ^ 31
      → IsReadable d.command_url
      → description_from_json_object (to_json_object d) ≡ record d {
        type = d.service_id;
        location_xml = none;
        service_list = none;
        location_response_headers = none;
        last_detection = 0;
        device = none;
      }
  unfolding description_from_json_object to_json_object text_eq object_for_key
  description_from_json_object-to_json_object d small readable =
      simp
        (
          lookups,
          text_at-text_entry,
          port_at-port_entry d.port small,
          url_at d.command_url readable,
        )
        refl
