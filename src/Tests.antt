-- ===== src/Tests.antt =====
-- Concrete devices and managers, and the theorems at work on them.
pub mod Services
pub mod Managers
pub mod Sockets
pub mod Providers
pub mod Interfaces
pub mod Writers
pub mod Pickers
pub mod Records
pub mod NetServices
use connect_sdk_i_os_core.Prelude.{ℕ, String, Bool, true, false, List, [], ◌∷◌, Option, none, some}
use connect_sdk_i_os_core.Description.{ServiceDescription}
use connect_sdk_i_os_core.Service.{DeviceService, Control, ControlKind}
use connect_sdk_i_os_core.Device.{Device, DeviceDelegate}

abbrev pub tv_description : ServiceDescription
tv_description = record {
  address = some "10.0.0.2";
  service_id = some "webOS TV";
  port = 3001;
  uuid = some "uid-1";
  type = none;
  version = none;
  friendly_name = some "TV";
  manufacturer = none;
  model_name = none;
  model_description = none;
  model_number = none;
  command_url = none;
  location_xml = none;
  service_list = none;
  location_response_headers = none;
  last_detection = 5;
  device = none;
}

abbrev pub dial_description : ServiceDescription
dial_description = record tv_description { service_id = some "DIAL"; last_detection = 4 }

abbrev tv_controls : ControlKind → Option Control
tv_controls kind = some (record { object = 1; priority = 75 })

abbrev dial_controls : ControlKind → Option Control
dial_controls kind = some (record { object = 2; priority = 25 })

abbrev pub tv : DeviceService
tv = record {
  service_class = "WebOSTVService";
  description = tv_description;
  config_uuid = none;
  capabilities = "Launcher.App" ∷ "Launcher.App.Params" ∷ [];
  connectable = true;
  connected = false;
  delegate = some true;
  controls = tv_controls;
}

abbrev pub dial : DeviceService
dial = record {
  service_class = "DIALService";
  description = dial_description;
  config_uuid = none;
  capabilities = "Launcher.App" ∷ [];
  connectable = false;
  connected = false;
  delegate = some true;
  controls = dial_controls;
}

abbrev pub all_methods : DeviceDelegate
all_methods = record {
  on_capabilities = true;
  on_connection_required = true;
  on_connection_success = true;
  on_connection_failed = true;
  on_service_failed = true;
  on_service_disconnected = true;
  on_pairing_required = true;
  on_pairing_success = true;
  on_pairing_failed = true;
}

abbrev pub living_room : Device
living_room = record {
  id = some "device-1";
  description = tv_description;
  services = ("webOS TV", tv) ∷ ("DIAL", dial) ∷ [];
  delegate = some all_methods;
  last_known_ip_address = some "10.0.0.2";
  last_seen_on_wifi = none;
  last_connected = 0;
  last_detection = 5;
  observing = true;
}
