-- ===== src/Capabilities.antt =====
-- Services/Capabilities/Capability.h: what the headers of the control interfaces share.
-- A header names its capabilities by constants, lists some of them, and declares a protocol. Here the
-- constants and the list are a `CapabilityClass`, a protocol is the data type of its calls, and what
-- a call's success block receives is a family over the calls.
pub mod Launcher
pub mod MediaPlayer
pub mod MediaControl
pub mod PlayListControl
pub mod VolumeControl
pub mod TvControl
pub mod WebAppLauncher
pub mod InputControls
pub mod SystemControls
pub mod CastControls
pub mod Classes
use connect_sdk_i_os_core.Prelude.{ℕ, String, List, Option, some, none}

pub data CapabilityPriorityLevel : Type 0 where
  very_low low normal high very_high : CapabilityPriorityLevel

-- The value of the enumeration.
unfoldable pub priority_value : CapabilityPriorityLevel → ℕ
priority_value very_low = 1
priority_value low = 25
priority_value normal = 50
priority_value high = 75
priority_value very_high = 100

pub data ConnectStatusCode : Type 0 where
  generic_error tv_error certificate_error socket_error not_supported : ConnectStatusCode
  argument_error not_connected : ConnectStatusCode

unfoldable pub status_code : ConnectStatusCode → ℕ
status_code generic_error = 1000
status_code tv_error = 1001
status_code certificate_error = 1002
status_code socket_error = 1003
status_code not_supported = 1100
status_code argument_error = 1101
status_code not_connected = 1102

-- An error of Connect SDK: its code and its details. The text of the message is left out.
pub record ConnectError : Type 0 where
  pub code : ConnectStatusCode
  pub details : Option String

-- Which block a call runs, and with what.
pub data Reply (A : Type 0) : Type 0 where
  success : A → Reply A
  failure : ConnectError → Reply A

-- `sendNotSupportedFailure:`.
abbrev pub not_supported_failure : {A : Type 0} → Reply A
not_supported_failure = failure (record { code = not_supported; details = none })

-- The constants of a header: the wildcard, if there is one, all the constants beside it, and the
-- array of capabilities that the header defines.
pub record CapabilityClass : Type 0 where
  pub any_capability : Option String
  pub constants : List String
  pub listed : List String
