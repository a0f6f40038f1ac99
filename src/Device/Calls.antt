-- ===== src/Device/Calls.antt =====
-- Devices/ConnectableDevice.h: the calls of the header that change a device.
use connect_sdk_i_os_core.Prelude.{String, ◌≡◌, refl, List, Option, some}
use connect_sdk_i_os_core.Service.{DeviceService, service_name}
use connect_sdk_i_os_core.Device.{Device, DeviceEvent, add_service, remove_service_with_id}
use connect_sdk_i_os_core.Device.Connection.{connect, disconnect}
use connect_sdk_i_os_core.Device.Filing.{IsFiled, add_service_lem, remove_service_with_id-IsFiled}

pub data DeviceCall : Type 0 where
  connects disconnects : DeviceCall
  adds_service : DeviceService → DeviceCall
  removes_service : Option String → DeviceCall

-- The methods of the class, by call. `none` is an exception, of a service without a name.
unfoldable pub perform_call : Device → DeviceCall → Option (Device × List DeviceEvent)
perform_call d connects = some (connect d)
perform_call d disconnects = some (disconnect d)
perform_call d (adds_service service) = add_service d service
perform_call d (removes_service service_id) = some (remove_service_with_id d service_id)

-- A service that is added has a name.
abbrev pub IsNamedCall : DeviceCall → Type 0
IsNamedCall connects = Unit
IsNamedCall disconnects = Unit
IsNamedCall (adds_service service) = (name : String) × (service_name service ≡ some name)
IsNamedCall (removes_service service_id) = Unit

-- Only one service of each name is on a device: each call whose service has a name returns, and
-- leaves the services of a device filed by name if they were.
pub perform_call-IsFiled :
    (d : Device) (c : DeviceCall)
    → IsFiled d
    → IsNamedCall c
    → (d' : Device) × (events : List DeviceEvent) × (perform_call d c ≡ some (d', events))
      × IsFiled d'
unfolding perform_call connect disconnect
perform_call-IsFiled d connects h n = (_, _, refl, record { keys = h.keys; named = h.named })
perform_call-IsFiled d disconnects h n = (_, _, refl, record { keys = h.keys; named = h.named })
perform_call-IsFiled d (adds_service service) h (name, e) =
    let (d', events, returns, filed, _) = add_service_lem d service name e h in
    (d', events, returns, filed)
perform_call-IsFiled d (removes_service service_id) h n =
    (_, _, refl, remove_service_with_id-IsFiled d service_id h)
