-- ===== src/Config.antt =====
-- Services/Config/ServiceConfig.m: what is kept of a service between runs of the app, and the
-- delegate that hears of its changes. The delegate is a weak reference; here its object lives.
pub mod Notices
pub mod RoundTrip
use connect_sdk_i_os_core.Prelude.{
  ℕ, String, Bool, true, false, ◌||◌, List, [], ◌∷◌, Option, none, some, if◌then◌else◌, is_set,
}
use connect_sdk_i_os_core.Description.{ServiceDescription}

-- The JSON form; an entry that is left out reads as NO or 0. Subclasses add entries of their own.
pub record ConfigInfo : Type 0 where
  pub config_class : Option String
  pub uuid : Option String
  pub connected : Bool
  pub was_connected : Bool
  pub last_detection : ℕ

-- `has_observers` is `_hasObservers`: the object observes its own properties.
pub record ServiceConfig : Type 0 where
  pub config_class : String
  pub uuid : Option String
  pub connected : Bool
  pub was_connected : Bool
  pub last_detection : ℕ
  pub delegate : Option ℕ
  pub has_observers : Bool

-- A message to the delegate, `serviceConfigUpdate:`.
pub data ConfigNotice : Type 0 where
  service_config_update : ℕ → ConfigNotice

unfoldable pub add_observers : ServiceConfig → ServiceConfig
add_observers c = record c { has_observers = true }

unfoldable pub remove_observers : ServiceConfig → ServiceConfig
remove_observers c = record c { has_observers = false }

-- The three cases of `setDelegate:`, by the new delegate and the old one. A delegate that is taken
-- away only ends the observation: the property keeps it.
unfoldable pub delegate_change : Option ℕ → Option ℕ → ServiceConfig → ServiceConfig
delegate_change none none c = record c { delegate = none }
delegate_change none (some old) c = remove_observers c
delegate_change (some new) none c = add_observers (record c { delegate = some new })
delegate_change (some new) (some old) c = record c { delegate = some new }

unfoldable pub set_delegate : ServiceConfig → Option ℕ → ServiceConfig
set_delegate c delegate = delegate_change delegate c.delegate c

abbrev pub told_of_change : Option ℕ → List ConfigNotice
told_of_change none = []
told_of_change (some delegate) = service_config_update delegate ∷ []

-- What a set property is heard of.
unfoldable pub observe : ServiceConfig → List ConfigNotice
observe c = if c.has_observers then told_of_change c.delegate else []

unfoldable pub set_connected : Bool → ServiceConfig → ServiceConfig × List ConfigNotice
set_connected b c = (record c { connected = b }, observe c)

-- `initWithServiceDescription:` of a class.
unfoldable pub config_with_description : String → ServiceDescription → ℕ → ServiceConfig
config_with_description config_class d now = record {
  config_class = config_class;
  uuid = d.uuid;
  connected = false;
  was_connected = false;
  last_detection = now;
  delegate = none;
  has_observers = false;
}

-- `initWithServiceConfig:`: the new object, and the old one, whose delegate is set to nil.
unfoldable pub config_with_service_config : ServiceConfig → ServiceConfig × ServiceConfig
config_with_service_config c = (
  set_delegate (record c { delegate = none; has_observers = false }) c.delegate,
  set_delegate c none,
)

-- `toJSONObject`.
unfoldable pub to_json_object : ServiceConfig → ConfigInfo
to_json_object c = record {
  config_class = some c.config_class;
  uuid = c.uuid;
  connected = c.connected;
  was_connected = c.was_connected;
  last_detection = c.last_detection;
}

-- `initWithJSONObject:` of a class. A service that was connected when it was stored was connected.
unfoldable pub config_from_json_object : String → ConfigInfo → ServiceConfig
config_from_json_object config_class i = record {
  config_class = config_class;
  uuid = i.uuid;
  connected = false;
  was_connected = i.connected || i.was_connected;
  last_detection = i.last_detection;
  delegate = none;
  has_observers = false;
}

-- `serviceConfigWithJSONObject:`: nil for a class that does not exist. `is_class` is whether
-- `NSClassFromString` knows the name.
unfoldable pub config_of_class : (String → Bool) → Option String → ConfigInfo → Option ServiceConfig
config_of_class is_class none i = none
config_of_class is_class (some name) i =
    if is_class name then some (config_from_json_object name i) else none

unfoldable pub service_config_with_json_object : (String → Bool) → ConfigInfo → Option ServiceConfig
service_config_with_json_object is_class i = config_of_class is_class i.config_class i
