-- ===== src/Tests/Records.antt =====
-- Descriptions of services and the times of a player.
use connect_sdk_i_os_core.Prelude.{◌≡◌, refl, ◌↔◌, true, none, some, arith}
use connect_sdk_i_os_core.Description.Json.{
  description_from_json_object, to_json_object, description_from_json_object-to_json_object,
}
use connect_sdk_i_os_core.Description.Equality.{
  is_equal_to_service_description, is_equal_to_service_description_iff,
}
use connect_sdk_i_os_core.Description.Copies.{copy_description, copy_description-is_equal_iff}
use connect_sdk_i_os_core.Dlna.{plus, minus, clock_of}
use connect_sdk_i_os_core.Tests.{tv_description, dial_description}

description_from_json_object-to_json_object_example :
    description_from_json_object some (to_json_object tv_description) ≡ record tv_description {
      type = some "webOS TV";
      location_xml = none;
      service_list = none;
      location_response_headers = none;
      last_detection = 0;
      device = none;
    }
description_from_json_object-to_json_object_example =
    description_from_json_object-to_json_object some tv_description (omega arith) tt

is_equal_to_service_description_iff_example :
    (is_equal_to_service_description tv_description dial_description ≡ true)
    ↔ (tv_description ≡ record dial_description { last_detection = 5 })
is_equal_to_service_description_iff_example =
    is_equal_to_service_description_iff tv_description dial_description

copy_description-is_equal_iff_example :
    (is_equal_to_service_description (copy_description 9 tv_description) tv_description ≡ true)
    ↔ (tv_description.device ≡ none)
copy_description-is_equal_iff_example = copy_description-is_equal_iff 9 tv_description

-- A time of an hour and some, and one below 0.
clock_runs : clock_of (plus 3725) ≡ record { hour = plus 1; minute = plus 2; second = plus 5 }
unfolding clock_of
clock_runs = refl

clock_backwards :
    clock_of (minus 65) ≡ record { hour = minus 0; minute = minus 1; second = minus 5 }
unfolding clock_of
clock_backwards = refl
