-- ===== src/Sessions.antt =====
-- Services/Sessions/LaunchSession.m: a session of something launched on a device, its JSON form, and
-- how it is closed.
-- The dictionary of the JSON form holds strings, numbers and raw data; a value of another class under
-- the key of a string is not considered, and reads as nil.
pub mod Closing
pub mod RoundTrip
pub mod WebApp
use connect_sdk_i_os_core.Prelude.{
  ℕ, String, Bool, true, false, ◌&&◌, List, [], ◌∷◌, Option, none, some, if◌then◌else◌, ◌==◌, ◌>>=◌,
  Dict, object_for_key, put_value, is_equal_to_string,
}
use connect_sdk_i_os_core.Capabilities.{ConnectError, argument_error}

-- What a launch session asks of the service that it belongs to: its name, and to which protocols its
-- class conforms.
pub record SessionService : Type 0 where
  pub name : Option String
  pub is_launcher : Bool
  pub is_media_player : Bool
  pub is_external_input_control : Bool
  pub is_web_app_launcher : Bool
  pub has_media_control : Bool

pub data LaunchSessionType : Type 0 where
  unknown app external_input_picker media web_app : LaunchSessionType

-- Raw data by its class: JSON has dictionaries, arrays and strings, and nothing else is stored. The
-- number is that of the object.
pub data RawData : Type 0 where
  raw_dictionary raw_array raw_string raw_other : ℕ → RawData

pub record LaunchSession : Type 0 where
  pub app_id : Option String
  pub name : Option String
  pub session_id : Option String
  pub raw_data : Option RawData
  pub session_type : LaunchSessionType
  pub service : Option SessionService

-- `launchSessionForAppId:`.
abbrev pub launch_session_for_app_id : Option String → LaunchSession
launch_session_for_app_id app_id = record {
  app_id = app_id;
  name = none;
  session_id = none;
  raw_data = none;
  session_type = unknown;
  service = none;
}

-- The values of the dictionary.
pub data Value : Type 0 where
  text : String → Value
  number : ℕ → Value
  raw : RawData → Value

abbrev pub as_text : Option String → Option Value
as_text none = none
as_text (some s) = some (text s)

-- The number of the enumeration, which is left out where it is 0.
abbrev pub as_number : LaunchSessionType → Option Value
as_number unknown = none
as_number app = some (number 1)
as_number external_input_picker = some (number 2)
as_number media = some (number 3)
as_number web_app = some (number 4)

-- Raw data that JSON has.
abbrev pub stored_raw : Option RawData → Option RawData
stored_raw none = none
stored_raw (some (raw_dictionary n)) = some (raw_dictionary n)
stored_raw (some (raw_array n)) = some (raw_array n)
stored_raw (some (raw_string n)) = some (raw_string n)
stored_raw (some (raw_other n)) = none

abbrev pub as_raw : Option RawData → Option Value
as_raw none = none
as_raw (some r) = some (raw r)

-- What stands under the key of the service's name: nothing without a service, and its name with one.
-- A service without a name raises an exception, `none`.
abbrev pub service_entry : Option SessionService → Option (Option Value)
service_entry none = some none
service_entry (some s) = do name ← s.name; some (some (text name))

-- The dictionary, with what stands under the key of the service's name.
unfoldable pub dictionary_of : LaunchSession → Option Value → Dict Value
dictionary_of s service_name = put_value "rawData" (as_raw (stored_raw s.raw_data)) (
    put_value "serviceName" service_name (
      put_value "sessionType" (as_number s.session_type) (
        put_value "name" (as_text s.name) (
          put_value "sessionId" (as_text s.session_id) (put_value "appId" (as_text s.app_id) [])))))

-- `toJSONObject`.
unfoldable pub to_json_object : LaunchSession → Option (Dict Value)
to_json_object s = do service_name ← service_entry s.service; some (dictionary_of s service_name)

abbrev pub text_of : Option Value → Option String
text_of none = none
text_of (some (text s)) = some s
text_of (some (number n)) = none
text_of (some (raw r)) = none

-- `integerValue` of nil is 0. A number that is no session type is not considered.
abbrev pub type_of_number : ℕ → LaunchSessionType
type_of_number n =
    if n == 1
    then app
    else if n == 2
    then external_input_picker
    else if n == 3
    then media
    else if n == 4
    then web_app
    else unknown

abbrev pub type_of : Option Value → LaunchSessionType
type_of none = unknown
type_of (some (text s)) = unknown
type_of (some (number n)) = type_of_number n
type_of (some (raw r)) = unknown

abbrev pub raw_of : Option Value → Option RawData
raw_of none = none
raw_of (some (text s)) = none
raw_of (some (number n)) = none
raw_of (some (raw r)) = some r

-- `initWithJSONObject:`.
unfoldable pub launch_session_from_json_object : Dict Value → LaunchSession
launch_session_from_json_object json = record {
  app_id = text_of (object_for_key "appId" json);
  name = text_of (object_for_key "name" json);
  session_id = text_of (object_for_key "sessionId" json);
  raw_data = raw_of (object_for_key "rawData" json);
  session_type = type_of (object_for_key "sessionType" json);
  service = none;
}

-- `isEqual:`. A message to nil answers NO.
unfoldable pub launch_session_is_equal : LaunchSession → LaunchSession → Bool
launch_session_is_equal s t =
    is_equal_to_string t.app_id s.app_id && is_equal_to_string t.session_id s.session_id

-- What closing a session calls: the failure block, a method of the service, or nothing at all.
pub data CloseOutcome : Type 0 where
  fails : ConnectError → CloseOutcome
  closes_app closes_media closes_input_picker closes_web_app calls_nothing : CloseOutcome

abbrev pub refuse : String → CloseOutcome
refuse details = fails (record { code = argument_error; details = some details })

-- The switch of `closeLaunchSession:success:failure:`.
unfoldable pub close_by_type : LaunchSessionType → SessionService → CloseOutcome
close_by_type app s = if s.is_launcher then closes_app else calls_nothing
close_by_type media s = if s.is_media_player then closes_media else calls_nothing
close_by_type external_input_picker s =
    if s.is_external_input_control then closes_input_picker else calls_nothing
close_by_type web_app s = if s.is_web_app_launcher then closes_web_app else calls_nothing
close_by_type unknown s = refuse "This DeviceService does not know how to close this LaunchSession"

unfoldable pub close_on_service : Option SessionService → LaunchSessionType → CloseOutcome
close_on_service none type = refuse "This LaunchSession does not have an associated DeviceService"
close_on_service (some s) type = close_by_type type s

-- `closeLaunchSession:success:failure:` of a service, with a failure block.
unfoldable pub close_launch_session : Option LaunchSession → CloseOutcome
close_launch_session none = refuse "You must provice a valid LaunchSession object"
close_launch_session (some s) = close_on_service s.service s.session_type

-- The guard of `closeWithSuccess:failure:`.
unfoldable pub close_if_referenced : Option SessionService → LaunchSession → CloseOutcome
close_if_referenced none s = refuse "This LaunchSession has no DeviceService reference"
close_if_referenced (some service) s = close_launch_session (some s)

-- `closeWithSuccess:failure:` of a session.
unfoldable pub close_with_success : LaunchSession → CloseOutcome
close_with_success s = close_if_referenced s.service s
