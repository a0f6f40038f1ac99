-- ===== src/Device/Connection.antt =====
-- Devices/ConnectableDevice.m: connecting a device through its services, and what the delegate
-- hears of it. A call of `connect` or `disconnect` on a service is an event: what it does lies with
-- the class of the service, and reaches the device later through the handlers below.
pub mod Events
pub mod Proxies
use mathlib.Core.Bool.{false≢true}
use connect_sdk_i_os_core.Prelude.{
  ℕ, zero, suc, ◌+◌, ◌≤◌, ◌<◌, String, ◌≡◌, ◌∙◌, sym, refl, subst, ◌↔◌, ◌⊎◌, inl, inr, Bool, true,
  false, not, ◌||◌, List, [], ◌∷◌, ◌++◌, Option, none, some, arith, if◌then◌else◌, leb, ltb, ◌==◌,
  length, Has, Dict, all_values, Bool-cases, any, any_of, any_witness,
}
use connect_sdk_i_os_core.Service.{DeviceService, service_name}
use connect_sdk_i_os_core.Device.{
  Device, DeviceEvent, ready, disconnected, connection_success, connection_failed, service_failed,
  service_disconnected, connect_service, disconnect_service, store_device, services, to_delegate,
  if_responds, count_services, connected, connected_service_count, connectable_service_count,
  is_connectable,
}

connect_events : List DeviceService → List DeviceEvent
connect_events [] = []
connect_events (s ∷ ss) =
    let rest = connect_events ss in
    if not s.connected then connect_service (service_name s) ∷ rest else rest

disconnect_events : List DeviceService → List DeviceEvent
disconnect_events [] = []
disconnect_events (s ∷ ss) =
    let rest = disconnect_events ss in
    if s.connected then disconnect_service (service_name s) ∷ rest else rest

unfoldable pub connect : Device → Device × List DeviceEvent
unfolding connect_events to_delegate
connect d = (
  record d { observing = true },
  if connected d then to_delegate d ready else connect_events (services d),
)

unfoldable pub disconnect : Device → Device × List DeviceEvent
unfolding disconnect_events to_delegate
disconnect d = (
  record d { observing = false },
  disconnect_events (services d) ++ to_delegate d (disconnected none),
)

unfoldable pub device_service_connection_success :
    Device → DeviceService → ℕ → Device × List DeviceEvent
unfolding to_delegate if_responds
device_service_connection_success d service now =
    let heard =
      if_responds d (λ g. g.on_connection_success) (connection_success (service_name service)) in
    if connected d
    then (record d { last_connected = now }, heard ++ (store_device ∷ to_delegate d ready))
    else (d, heard)

unfoldable pub device_service_did_fail_connect : Device → DeviceService → ℕ → List DeviceEvent
unfolding if_responds
device_service_did_fail_connect d service error =
    if_responds d (λ g. g.on_connection_failed) (connection_failed error)
    ++ if_responds d (λ g. g.on_service_failed) (service_failed (service_name service) error)

unfoldable pub device_service_disconnected : Device → DeviceService → Option ℕ → List DeviceEvent
unfolding to_delegate if_responds
device_service_disconnected d service error =
    (if connected_service_count d == 0 || length d.services == 0
      then to_delegate d (disconnected error)
      else [])
    ++ if_responds d (λ g. g.on_service_disconnected)
        (service_disconnected (service_name service) error)

-- A service that can connect has done so.
abbrev pub IsUp : DeviceService → Type 0
IsUp s = s.connectable ≡ true → s.connected ≡ true

count_services-le :
    (p : DeviceService → Bool) (ss : List DeviceService) → count_services p ss ≤ length ss
unfolding count_services
count_services-le p [] = omega arith
count_services-le p (s ∷ ss) = ground (arith, count_services-le p ss)

-- All are counted only if each passes.
count_services-all :
    (p : DeviceService → Bool) (ss : List DeviceService)
    → length ss ≤ count_services p ss
    → (s : DeviceService) → Has s ss
    → p s ≡ true
unfolding count_services
count_services-all p [] h s m = absurd m
count_services-all p (x ∷ xs) h s (inl e) =
    subst (λ y. p y ≡ true) e (ground (arith, count_services-le p xs))
count_services-all p (x ∷ xs) h s (inr m) =
    count_services-all p xs (ground (arith, count_services-le p xs)) s m

count_services-full :
    (p : DeviceService → Bool) (ss : List DeviceService)
    → ((s : DeviceService) → Has s ss → p s ≡ true)
    → length ss ≤ count_services p ss
unfolding count_services
count_services-full p [] h = omega arith
count_services-full p (x ∷ xs) h =
    rw (h x (inl refl)) (omega (arith, count_services-full p xs (λ s m. h s (inr m))))

counts : DeviceService → Bool
counts s = if not s.connectable then true else s.connected

IsUp-of_counts : (s : DeviceService) → counts s ≡ true → IsUp s
unfolding counts
IsUp-of_counts s h = λ c. ground arith

counts-of_IsUp : (s : DeviceService) → IsUp s → counts s ≡ true
unfolding counts
counts-of_IsUp s h = elim (Bool-cases s.connectable) [ inl c ↦ rw (c, h c) | inr c ↦ rw c ]

length-all_values : (d : Dict DeviceService) → length (all_values d) ≡ length d
length-all_values [] = refl
length-all_values (e ∷ d) = omega (arith, length-all_values d)

-- A device is connected exactly if each of its services that can connect is.
pub connected_iff :
    (d : Device) → (connected d ≡ true) ↔ ((s : DeviceService) → Has s (services d) → IsUp s)
unfolding connected
connected_iff d = (
  λ h s m. IsUp-of_counts s (
      count_services-all counts (services d)
        (let e = length-all_values d.services in unfold counts in ground arith) s m),
  λ h.
      let full = count_services-full counts (services d) (λ s m. counts-of_IsUp s (h s m)) in
      let e = length-all_values d.services in unfold counts in ground arith,
)
