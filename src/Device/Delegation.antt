-- ===== src/Device/Delegation.antt =====
-- Services/DeviceServiceDelegate.h and Devices/ConnectableDeviceDelegate.h: a device is the delegate
-- of its services, and passes what they tell on to its own delegate.
use connect_sdk_i_os_core.Prelude.{
  ℕ, ◌≡◌, ◌↔◌, inl, inr, refl, Bool, true, false, List, [], ◌∷◌, Option, none, some, if◌then◌else◌,
  Has, Bool-cases,
}
use connect_sdk_i_os_core.Service.{DeviceService, Notice, service_name}
use connect_sdk_i_os_core.Device.{
  Device, DeviceDelegate, DeviceEvent, DeviceServicePairingType, no_pairing, first_screen, pin_code,
  mixed, air_play_mirroring, unknown_pairing, connection_success, service_failed,
  service_disconnected, connection_required, capabilities_changed, pairing_required,
  pairing_success, pairing_failed, show_alert, tell_manager, if_responds,
}
use connect_sdk_i_os_core.Device.Connection.{
  device_service_connection_success, device_service_did_fail_connect, device_service_disconnected,
}
use connect_sdk_i_os_core.Device.Connection.Proxies.{
  behind, Has-if_responds_iff, then_iff, connection_success-proxies, disconnection-proxies,
  failure-proxies,
}

-- What a service tells its delegate. An error and the data of a pairing stand as numbers.
pub data ServiceMessage : Type 0 where
  service_connection_required service_connection_success : ServiceMessage
  service_capabilities : Notice → ServiceMessage
  service_disconnection : Option ℕ → ServiceMessage
  service_connection_failure : ℕ → ServiceMessage
  service_pairing_required : DeviceServicePairingType → Option ℕ → ServiceMessage
  service_pairing_success : ServiceMessage
  service_pairing_failure : ℕ → ServiceMessage

-- `pairingType == DeviceServicePairingTypeAirPlayMirroring`.
is_air_play : DeviceServicePairingType → Bool
is_air_play no_pairing = false
is_air_play first_screen = false
is_air_play pin_code = false
is_air_play mixed = false
is_air_play air_play_mirroring = true
is_air_play unknown_pairing = false

-- A delegate without the method for the pairing leaves an alert of AirPlay to the device.
unfoldable pub pairing_required_of_type :
    Device → DeviceService → DeviceServicePairingType → Option ℕ → List DeviceEvent
unfolding is_air_play
pairing_required_of_type d service type pairing_data = elim d.delegate [
  | none ↦ []
  | some delegate ↦
      if delegate.on_pairing_required
      then pairing_required (service_name service) type pairing_data ∷ []
      else if is_air_play type
      then show_alert pairing_data ∷ []
      else []
]

-- The handlers of the device, by message.
unfoldable pub handle_service_message :
    Device → DeviceService → ℕ → ServiceMessage → Device × List DeviceEvent
unfolding if_responds
handle_service_message d service now service_connection_required =
    (d, if_responds d (λ g. g.on_connection_required) (connection_required (service_name service)))
handle_service_message d service now service_connection_success =
    device_service_connection_success d service now
handle_service_message d service now (service_capabilities n) =
    (d, tell_manager n ∷ if_responds d (λ g. g.on_capabilities) (capabilities_changed n))
handle_service_message d service now (service_disconnection error) =
    (d, device_service_disconnected d service error)
handle_service_message d service now (service_connection_failure error) =
    (d, device_service_did_fail_connect d service error)
handle_service_message d service now (service_pairing_required type pairing_data) =
    (d, pairing_required_of_type d service type pairing_data)
handle_service_message d service now service_pairing_success =
    (d, if_responds d (λ g. g.on_pairing_success) (pairing_success (service_name service)))
handle_service_message d service now (service_pairing_failure error) =
    (d, if_responds d (λ g. g.on_pairing_failed) (pairing_failed (service_name service) error))

-- The proxy method of the delegate of the device for a message of a service.
abbrev pub proxy_of : DeviceService → ServiceMessage → DeviceEvent
proxy_of s service_connection_required = connection_required (service_name s)
proxy_of s service_connection_success = connection_success (service_name s)
proxy_of s (service_capabilities n) = capabilities_changed n
proxy_of s (service_disconnection error) = service_disconnected (service_name s) error
proxy_of s (service_connection_failure error) = service_failed (service_name s) error
proxy_of s (service_pairing_required type pairing_data) =
    pairing_required (service_name s) type pairing_data
proxy_of s service_pairing_success = pairing_success (service_name s)
proxy_of s (service_pairing_failure error) = pairing_failed (service_name s) error

-- The test for the proxy method.
abbrev pub has_proxy : DeviceDelegate → ServiceMessage → Bool
has_proxy g service_connection_required = g.on_connection_required
has_proxy g service_connection_success = g.on_connection_success
has_proxy g (service_capabilities n) = g.on_capabilities
has_proxy g (service_disconnection error) = g.on_service_disconnected
has_proxy g (service_connection_failure error) = g.on_service_failed
has_proxy g (service_pairing_required type pairing_data) = g.on_pairing_required
has_proxy g service_pairing_success = g.on_pairing_success
has_proxy g (service_pairing_failure error) = g.on_pairing_failed

no_pairing_event :
    (d : Device) (s : DeviceService) (t : DeviceServicePairingType) (pairing_data : Option ℕ)
    (b : Bool)
    → Has
        (pairing_required (service_name s) t pairing_data)
        (if b then show_alert pairing_data ∷ [] else [])
    → ⊥
no_pairing_event d s t pairing_data true (inl e) = cc
no_pairing_event d s t pairing_data true (inr b) = b
no_pairing_event d s t pairing_data false m = m

pairing_required-proxies :
    (d : Device) (s : DeviceService) (t : DeviceServicePairingType) (pairing_data : Option ℕ)
    (g : DeviceDelegate)
    → d.delegate ≡ some g
    → Has
        (pairing_required (service_name s) t pairing_data)
        (pairing_required_of_type d s t pairing_data)
      ↔ (g.on_pairing_required ≡ true)
unfolding pairing_required_of_type
pairing_required-proxies d s t pairing_data g h = rw h (elim (Bool-cases g.on_pairing_required) [
  | inl e ↦ rw e (λ m. refl, λ p. inl refl)
  | inr e ↦ rw e (λ m. absurd (no_pairing_event d s t pairing_data (is_air_play t) m), λ p. cc)
])

-- A delegate of the device hears a message of a service through the proxy method exactly if it has
-- that method.
pub handle_service_message-proxies :
    (d : Device) (service : DeviceService) (now : ℕ) (message : ServiceMessage) (g : DeviceDelegate)
    → d.delegate ≡ some g
    → Has (proxy_of service message) (handle_service_message d service now message).1
      ↔ (has_proxy g message ≡ true)
unfolding handle_service_message
handle_service_message-proxies d s now service_connection_required g h =
    Has-if_responds_iff d g _ _ h
handle_service_message-proxies d s now service_connection_success g h =
    connection_success-proxies d s now g h
handle_service_message-proxies d s now (service_capabilities n) g h =
    then_iff
      (behind (capabilities_changed n) (tell_manager n ∷ [])
        (if_responds d (λ g. g.on_capabilities) (capabilities_changed n))
        (elim [ inl e ↦ cc | inr b ↦ b ]))
      (Has-if_responds_iff d g (λ g. g.on_capabilities) (capabilities_changed n) h)
handle_service_message-proxies d s now (service_disconnection error) g h =
    disconnection-proxies d s error g h
handle_service_message-proxies d s now (service_connection_failure error) g h =
    failure-proxies d s error g h
handle_service_message-proxies d s now (service_pairing_required type pairing_data) g h =
    pairing_required-proxies d s type pairing_data g h
handle_service_message-proxies d s now service_pairing_success g h =
    Has-if_responds_iff d g (λ g. g.on_pairing_success) _ h
handle_service_message-proxies d s now (service_pairing_failure error) g h =
    Has-if_responds_iff d g (λ g. g.on_pairing_failed) _ h
