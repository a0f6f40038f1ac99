-- ===== src/Device/Connection/Events.antt =====
-- Devices/ConnectableDevice.m: which events the connection handlers of a device raise.
use connect_sdk_i_os_core.Prelude.{
  ℕ, ◌≤◌, ◌<◌, ◌≡◌, ◌∙◌, refl, ap, ◌↔◌, inl, inr, Bool, true, false, ◌||◌, List, [], ◌∷◌, ◌++◌,
  Option, none, some, arith, if◌then◌else◌, ◌==◌, length, Has, Bool-cases, Has-append_right,
}
use connect_sdk_i_os_core.Service.{DeviceService, service_name}
use connect_sdk_i_os_core.Device.{
  Device, DeviceDelegate, DeviceEvent, disconnected, connection_success, service_disconnected,
  connect_service, store_device, services, to_delegate, if_responds, count_services, connected,
  connected_service_count,
}
use connect_sdk_i_os_core.Device.Connection.{
  connect_events, connect, device_service_connection_success, device_service_disconnected, counts,
  length-all_values, count_services-le,
}

some_down :
    (ss : List DeviceService)
    → count_services counts ss < length ss
    → (s : DeviceService) × Has s ss × (counts s ≡ false)
unfolding count_services
some_down [] h = absurd (omega arith)
some_down (x ∷ xs) h = elim (Bool-cases (counts x)) [
  | inl t ↦ let (s, m, e) = some_down xs (ground arith) in (s, inr m, e)
  | inr t ↦ (x, inl refl, t)
]

Has-connect_events :
    (ss : List DeviceService) (s : DeviceService)
    → Has s ss
    → s.connected ≡ false
    → Has (connect_service (service_name s)) (connect_events ss)
unfolding connect_events
Has-connect_events [] s m e = absurd m
Has-connect_events (x ∷ xs) s (inl i) e =
    rw (ap (λ (y : DeviceService). y.connected) i ∙ e)
      (inl (ap (λ (y : DeviceService). connect_service (service_name y)) i))
Has-connect_events (x ∷ xs) s (inr m) e = elim (Bool-cases x.connected) [
  | inl t ↦ rw t (Has-connect_events xs s m e)
  | inr t ↦ rw t (inr (Has-connect_events xs s m e))
]

-- `connect` of a device that is not connected calls `connect` on a service that can connect and has
-- not done so: the call makes progress.
pub connect-progress :
    (d : Device)
    → connected d ≡ false
    → (s : DeviceService) × Has s (services d)
      × (s.connectable ≡ true)
      × (s.connected ≡ false)
      × Has (connect_service (service_name s)) (connect d).1
unfolding connect connected counts
connect-progress d h =
    let few : count_services counts (services d) < length (services d) =
      (let e = length-all_values d.services in ground arith) in
    let (s, m, e) = some_down (services d) few in
    let down : s.connected ≡ false = ground arith in
    (s, m, ground arith, down, rw h (Has-connect_events (services d) s m down))

pub Has-if_responds :
    (d : Device) (method : DeviceDelegate → Bool) (e x : DeviceEvent)
    → Has x (if_responds d method e)
    → e ≡ x
unfolding if_responds
Has-if_responds d method e x m = go d.delegate m
  where
    go :
        (delegate : Option DeviceDelegate)
        → Has x (elim delegate [ none ↦ [] | some g ↦ if method g then e ∷ [] else [] ])
        → e ≡ x
    go none m = absurd m
    go (some g) m = elim (Bool-cases (method g)) [
      | inl t ↦ elim (rw t at m) [ inl i ↦ i | inr b ↦ absurd b ]
      | inr t ↦ absurd (rw t at m)
    ]

-- A successful connection of a service puts the device into the store exactly if the device is
-- connected, and only then sets the time of its last connection.
pub connection_success-stores :
    (d : Device) (s : DeviceService) (now : ℕ)
    → (Has store_device (device_service_connection_success d s now).1 ↔ (connected d ≡ true))
      × ((device_service_connection_success d s now).0.last_connected
          ≡ (if connected d then now else d.last_connected))
unfolding device_service_connection_success
connection_success-stores d s now = elim (Bool-cases (connected d)) [
  | inl t ↦ rw t ((λ _. refl, λ _. Has-append_right store_device heard _ (inl refl)), refl)
  | inr t ↦ rw t (
    (
      λ m. cc (Has-if_responds d method (connection_success (service_name s)) store_device m),
      λ e. cc,
    ),
    refl,
  )
]
  where
    method : DeviceDelegate → Bool
    method = λ g. g.on_connection_success

    heard : List DeviceEvent
    heard = if_responds d method (connection_success (service_name s))

-- A list that may hold the loss of the device, before one that does not.
guarded :
    (d : Device) (s : DeviceService) (error : Option ℕ) (g : DeviceDelegate)
    → d.delegate ≡ some g
    → (b : Bool)
    → Has (disconnected error) (
        (if b then to_delegate d (disconnected error) else [])
        ++ if_responds d
            (λ h. h.on_service_disconnected)
            (service_disconnected (service_name s) error))
      ↔ (b ≡ true)
unfolding to_delegate
guarded d s error g h true = (λ _. refl, λ _. rw h (inl refl))
guarded d s error g h false = (
  λ m. cc (
      Has-if_responds d (λ h. h.on_service_disconnected)
        (service_disconnected (service_name s) error) (disconnected error) m),
  λ e. cc,
)

-- The loss of a service's connection is reported as the loss of the device exactly if no service
-- counts as connected any more, provided that a delegate is set.
pub device_service_disconnected_iff :
    (d : Device) (s : DeviceService) (error : Option ℕ) (g : DeviceDelegate)
    → d.delegate ≡ some g
    → Has (disconnected error) (device_service_disconnected d s error)
      ↔ (connected_service_count d ≡ 0)
unfolding device_service_disconnected connected_service_count
device_service_disconnected_iff d s error g h =
    let all = guarded d s error g h (connected_service_count d == 0 || length d.services == 0) in
    let few : connected_service_count d ≤ length d.services =
      (let e = length-all_values d.services in
        let f = count_services-le (λ x. if x.connectable then x.connected else true) (services d) in
        omega arith) in
    (λ m. let t = all.0 m in ground arith, λ e. all.1 (ground arith))
