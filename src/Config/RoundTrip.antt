-- ===== src/Config/RoundTrip.antt =====
-- Services/Config/ServiceConfig.m: what is left of a configuration that was stored as JSON.
use connect_sdk_i_os_core.Prelude.{String, ◌≡◌, refl, Bool, true, false, ◌||◌, none, some}
use connect_sdk_i_os_core.Config.{
  ServiceConfig, to_json_object, config_from_json_object, config_of_class,
  service_config_with_json_object,
}

-- A configuration of a class that exists, stored and read again, is the same but for the connection,
-- which has become a past one, and the delegate, which is gone.
pub service_config_with_json_object-to_json_object :
    (is_class : String → Bool) (c : ServiceConfig)
    → is_class c.config_class ≡ true
    → service_config_with_json_object is_class (to_json_object c)
      ≡ some (record c {
        connected = false;
        was_connected = c.connected || c.was_connected;
        delegate = none;
        has_observers = false;
      })
unfolding service_config_with_json_object config_of_class to_json_object config_from_json_object
service_config_with_json_object-to_json_object is_class c h = rw h refl
