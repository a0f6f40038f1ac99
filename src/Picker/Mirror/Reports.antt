-- ===== src/Picker/Mirror/Reports.antt =====
-- Devices/DevicePicker.m beside Discovery/DiscoveryManager.m: the picker behind what the discovery
-- providers report.
use connect_sdk_i_os_core.Prelude.{
  ℕ, String, ◌≡◌, ◌∙◌, sym, ap, refl, Bool, true, false, List, [], Option, none, some,
  if◌then◌else◌, ◌>>=◌, object_for_key, remove_object, Bool-cases, inl, inr, not,
}
use connect_sdk_i_os_core.Description.{ServiceDescription}
use connect_sdk_i_os_core.Service.{DeviceService}
use connect_sdk_i_os_core.Device.{Device, address, has_services, remove_service_with_id}
use connect_sdk_i_os_core.Manager.{
  Manager, ManagerEvent, put, handle_device_add, handle_device_update, handle_device_loss, notify,
  to_delegate, to_picker,
}
use connect_sdk_i_os_core.Manager.Discovery.{
  enlist, extend, settle, find_at, did_find_service, lose_at, did_lose_service, from_store,
}
use connect_sdk_i_os_core.Manager.Discovery.Consistency.{IsConsistent, put_here}
use connect_sdk_i_os_core.Manager.Discovery.Losing.{address-remove_service_with_id}
use connect_sdk_i_os_core.Manager.Reports.{
  ProviderMessage, reports_found, reports_lost, reports_error, handle_report,
}
use connect_sdk_i_os_core.Picker.Mirror.{
  hear_all, IsFollowed, Follows, Follows-some, Follows-none, IsFollowed-silent, IsFollowed-lost,
  handle_device_add-Follows, handle_device_update-Follows,
}

-- A handler that starts from another manager with the same picker and compatible devices.
IsFollowed-from :
    (m n n' : Manager) (events : List ManagerEvent)
    → n.has_picker ≡ m.has_picker
    → n.compatible_devices ≡ m.compatible_devices
    → IsFollowed n n' events
    → IsFollowed m n' events
IsFollowed-from m n n' events e c f = record {
  kept = f.kept ∙ e;
  follows = λ t p h. f.follows (e ∙ t) p (λ k. h k ∙ ap (object_for_key k) (sym c));
}

settle-Follows :
    (m : Manager) (a : String) (r : ℕ) (is_new : Bool) → Follows m (settle m a r is_new)
unfolding settle
settle-Follows m a r is_new = elim (Bool-cases (has_services (m.objects r))) [
  | inr t ↦ rw t (
      Follows-some m (record m { all_devices = remove_object a m.all_devices }) []
        (record { kept = refl; follows = λ s p h. (p, unfold hear_all in refl, h) }))
  | inl t ↦ rw t (by_age is_new)
]
  where
    by_age : (b : Bool) → Follows m (if b then handle_device_add m r else handle_device_update m r)
    by_age true = handle_device_add-Follows m r
    by_age false = handle_device_update-Follows m r

module _ (instantiate : String → Option String → DeviceService) where
  -- The device with its services takes its place, and its address is settled.
  settle-put-Follows :
      (m n : Manager) (a : String) (r : ℕ) (is_new : Bool) (o : Option Device)
      → n.has_picker ≡ m.has_picker
      → n.compatible_devices ≡ m.compatible_devices
      → Follows m (do device ← o; settle (put n r device) a r is_new)
  settle-put-Follows m n a r is_new none e c m' events answer = Follows-none m m' events answer
  settle-put-Follows m n a r is_new (some device) e c m' events answer =
      IsFollowed-from m (put n r device) m' events e c
        (settle-Follows (put n r device) a r is_new m' events answer)

  module _ (m : Manager) (a : String) (d : ServiceDescription) (config : Option (Option String))
      (now : ℕ) where
    enlisted-Follows :
        (o : Option ℕ)
        → Follows m (do
          let (m', r) = enlist m a d o
          device ← extend instantiate m' a d config now r
          settle (put m' r device) a r true)
    unfolding enlist
    enlisted-Follows none = settle-put-Follows m _ a m.fresh true _ refl refl
    enlisted-Follows (some r) = settle-put-Follows m _ a r true _ refl refl

    find_at-Follows : (stored : Option ℕ) → Follows m (find_at instantiate m a d stored config now)
    unfolding find_at
    find_at-Follows stored = go (object_for_key a m.all_devices)
      where
        go :
            (o : Option ℕ)
            → Follows m (elim o [
              | none ↦ (do
                let (m', r) = enlist m a d (from_store m stored)
                device ← extend instantiate m' a d config now r
                settle (put m' r device) a r true)
              | some r ↦ (do
                device ← extend instantiate m a d config now r
                settle (put m r device) a r false)
            ])
        go none = enlisted-Follows (from_store m stored)
        go (some r) = settle-put-Follows m m a r false _ refl refl

  did_find_service-Follows :
      (m : Manager) (d : ServiceDescription) (stored : Option ℕ) (config : Option (Option String))
      (now : ℕ)
      → Follows m (did_find_service instantiate m d stored config now)
  unfolding did_find_service
  did_find_service-Follows m d stored config now = go d.address
    where
      go : (o : Option String) → Follows m (do a ← o; find_at instantiate m a d stored config now)
      go none = Follows-none m
      go (some a) = find_at-Follows m a d config now stored

  module _ (m : Manager) (c : IsConsistent m) where
    lose_at-Follows :
        (a : String) (r : ℕ) (service_id : Option String)
        → object_for_key a m.all_devices ≡ some r
        → Follows m (lose_at m a r service_id)
    unfolding lose_at handle_device_loss notify to_delegate to_picker
    lose_at-Follows a r service_id e =
        go (remove_service_with_id (m.objects r) service_id).0
          (address-remove_service_with_id (m.objects r) service_id ∙ (c.served a r e).at_address)
      where
        orphaned : Device → Manager
        orphaned rest = record (put m r rest) {
          all_devices = remove_object a m.all_devices;
          compatible_devices = remove_object a m.compatible_devices;
        }

        go :
            (rest : Device)
            → address rest ≡ some a
            → Follows m (
                if not (has_services ((put m r rest).objects r))
                then some (orphaned rest, handle_device_loss (put m r rest) r)
                else handle_device_update (put m r rest) r)
        go rest at = elim (Bool-cases (has_services rest)) [
          | inr t ↦ rw (put_here m r rest) (
              rw t (
                Follows-some m (orphaned rest) _ (
                  IsFollowed-lost m r (orphaned rest) a refl (ap address (put_here m r rest) ∙ at)
                    refl)))
          | inl t ↦ rw (put_here m r rest) (
              rw t (λ m' events answer.
                IsFollowed-from m (put m r rest) m' events refl refl
                  (handle_device_update-Follows (put m r rest) r m' events answer)))
        ]

    did_lose_service-Follows : (d : ServiceDescription) → Follows m (did_lose_service m d)
    unfolding did_lose_service
    did_lose_service-Follows d = go d.address
      where
        at_address :
            (a : String) (o : Option ℕ)
            → object_for_key a m.all_devices ≡ o
            → Follows m (elim o [ none ↦ some (m, []) | some r ↦ lose_at m a r d.service_id ])
        at_address a none e = Follows-some m m [] (IsFollowed-silent m)
        at_address a (some r) e = lose_at-Follows a r d.service_id e

        go :
            (o : Option String)
            → Follows m (elim o [
              | none ↦ some (m, [])
              | some a ↦ elim (object_for_key a m.all_devices) [
                | none ↦ some (m, [])
                | some r ↦ lose_at m a r d.service_id
              ]
            ])
        go none = Follows-some m m [] (IsFollowed-silent m)
        go (some a) = at_address a (object_for_key a m.all_devices) refl

    pub handle_report-Follows :
        (message : ProviderMessage) → Follows m (handle_report instantiate m message)
    unfolding handle_report
    handle_report-Follows (reports_found d stored config now) =
        did_find_service-Follows m d stored config now
    handle_report-Follows (reports_lost d) = did_lose_service-Follows d
    handle_report-Follows (reports_error error) = Follows-some m m [] (IsFollowed-silent m)
