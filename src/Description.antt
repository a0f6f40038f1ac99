-- ===== src/Description.antt =====
-- Services/Config/ServiceDescription.m: what a discovery provider knows of a service.
-- A property is `none` where the source's pointer is nil. The objects that the source only
-- compares by `isEqual:` (service list, response headers, device) stand as numbers, equal where
-- `isEqual:` says so. Times are whole ticks since the epoch.
pub mod Json
pub mod Equality
pub mod Copies
use connect_sdk_i_os_core.Prelude.{ℕ, String, Option}

pub record ServiceDescription : Type 0 where
  pub address : Option String
  pub service_id : Option String
  pub port : ℕ
  pub uuid : Option String
  pub type : Option String
  pub version : Option String
  pub friendly_name : Option String
  pub manufacturer : Option String
  pub model_name : Option String
  pub model_description : Option String
  pub model_number : Option String
  pub command_url : Option String
  pub location_xml : Option String
  pub service_list : Option ℕ
  pub location_response_headers : Option ℕ
  pub last_detection : ℕ
  pub device : Option ℕ
