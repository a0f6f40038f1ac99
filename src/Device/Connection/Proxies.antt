-- ===== src/Device/Connection/Proxies.antt =====
-- What the delegate of a device hears of a connection, its end and its failure: the handlers of
-- Devices/ConnectableDevice.m.
use connect_sdk_i_os_core.Prelude.{
  ℕ, ◌≡◌, ◌↔◌, inl, inr, refl, Bool, true, false, List, [], ◌∷◌, ◌++◌, Option, none, some,
  if◌then◌else◌, Has, Has-append_left, Has-append_right, Has-of_append, Bool-cases,
}
use connect_sdk_i_os_core.Service.{DeviceService, service_name}
use connect_sdk_i_os_core.Device.{
  Device, DeviceDelegate, DeviceEvent, ready, disconnected, connection_success, connection_failed,
  service_failed, service_disconnected, store_device, to_delegate, if_responds, connected,
}
use connect_sdk_i_os_core.Device.Connection.{
  device_service_connection_success, device_service_did_fail_connect, device_service_disconnected,
}
use connect_sdk_i_os_core.Device.Connection.Events.{Has-if_responds}

-- One of two lists has no such event.
beside : (x : DeviceEvent) (xs ys : List DeviceEvent) → (Has x ys → ⊥) → Has x (xs ++ ys) ↔ Has x xs
beside x xs ys n = (
  λ m. elim (Has-of_append x xs ys m) [ inl a ↦ a | inr b ↦ absurd (n b) ],
  λ m. Has-append_left x xs ys m,
)

pub behind :
    (x : DeviceEvent) (xs ys : List DeviceEvent) → (Has x xs → ⊥) → Has x (xs ++ ys) ↔ Has x ys
behind x xs ys n = (
  λ m. elim (Has-of_append x xs ys m) [ inl a ↦ absurd (n a) | inr b ↦ b ],
  λ m. Has-append_right x xs ys m,
)

-- A message that is sent if the delegate responds to it.
pub Has-if_responds_iff :
    (d : Device) (g : DeviceDelegate) (method : DeviceDelegate → Bool) (e : DeviceEvent)
    → d.delegate ≡ some g
    → Has e (if_responds d method e) ↔ (method g ≡ true)
unfolding if_responds
Has-if_responds_iff d g method e h = rw h (elim (Bool-cases (method g)) [
  | inl t ↦ rw t (λ m. refl, λ p. inl refl)
  | inr t ↦ rw t (λ m. absurd m, λ p. cc)
])

pub then_iff : {A B C : Type 0} → A ↔ B → B ↔ C → A ↔ C
then_iff (f, f') (g, g') = (λ a. g (f a), λ c. f' (g' c))

pub connection_success-proxies :
    (d : Device) (s : DeviceService) (now : ℕ) (g : DeviceDelegate)
    → d.delegate ≡ some g
    → Has (connection_success (service_name s)) (device_service_connection_success d s now).1
      ↔ (g.on_connection_success ≡ true)
unfolding device_service_connection_success to_delegate
connection_success-proxies d s now g h = elim (Bool-cases (connected d)) [
  | inl t ↦ rw t (
      then_iff (beside x heard (store_device ∷ to_delegate d ready) no)
        (Has-if_responds_iff d g method x h))
  | inr t ↦ rw t (Has-if_responds_iff d g method x h)
]
  where
    method : DeviceDelegate → Bool
    method = λ g. g.on_connection_success

    x : DeviceEvent
    x = connection_success (service_name s)

    heard : List DeviceEvent
    heard = if_responds d method x

    no : Has x (store_device ∷ to_delegate d ready) → ⊥
    no (inl e) = cc
    no (inr m) = elim (rw h at m) [ inl e ↦ cc | inr b ↦ b ]

not_the_loss :
    (d : Device) (s : DeviceService) (error : Option ℕ) (b : Bool)
    → Has
        (service_disconnected (service_name s) error)
        (if b then to_delegate d (disconnected error) else [])
    → ⊥
unfolding to_delegate
not_the_loss d s error true m = go d.delegate m
  where
    go :
        (delegate : Option DeviceDelegate)
        → Has
            (service_disconnected (service_name s) error)
            (elim delegate [ none ↦ [] | some _ ↦ disconnected error ∷ [] ])
        → ⊥
    go none m = m
    go (some g) (inl e) = cc
    go (some g) (inr b) = b
not_the_loss d s error false m = m

pub disconnection-proxies :
    (d : Device) (s : DeviceService) (error : Option ℕ) (g : DeviceDelegate)
    → d.delegate ≡ some g
    → Has (service_disconnected (service_name s) error) (device_service_disconnected d s error)
      ↔ (g.on_service_disconnected ≡ true)
unfolding device_service_disconnected
disconnection-proxies d s error g h =
    then_iff (behind x _ (if_responds d method x) (not_the_loss d s error _))
      (Has-if_responds_iff d g method x h)
  where
    method : DeviceDelegate → Bool
    method = λ g. g.on_service_disconnected

    x : DeviceEvent
    x = service_disconnected (service_name s) error

pub failure-proxies :
    (d : Device) (s : DeviceService) (error : ℕ) (g : DeviceDelegate)
    → d.delegate ≡ some g
    → Has (service_failed (service_name s) error) (device_service_did_fail_connect d s error)
      ↔ (g.on_service_failed ≡ true)
unfolding device_service_did_fail_connect
failure-proxies d s error g h =
    then_iff
      (behind x (if_responds d first (connection_failed error)) (if_responds d method x)
        (λ m. cc (Has-if_responds d first (connection_failed error) x m)))
      (Has-if_responds_iff d g method x h)
  where
    first : DeviceDelegate → Bool
    first = λ g. g.on_connection_failed

    method : DeviceDelegate → Bool
    method = λ g. g.on_service_failed

    x : DeviceEvent
    x = service_failed (service_name s) error
