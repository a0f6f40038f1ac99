-- ===== src/Manager/Discovery/Losing.antt =====
-- Discovery/DiscoveryManager.m: the loss of a service.
use connect_sdk_i_os_core.Prelude.{
  ℕ, String, ◌≡◌, ◌≢◌, ◌∙◌, refl, inl, inr, true, [], Option, none, some, arith, text_eq_iff,
  object_for_key, remove_object, Dict, Bool-cases, object_for_key-remove_object,
}
use connect_sdk_i_os_core.Description.{ServiceDescription}
use connect_sdk_i_os_core.Device.{Device, address, has_services, remove_service_with_id}
use connect_sdk_i_os_core.Device.Filing.{remove_service_with_id-IsFiled}
use connect_sdk_i_os_core.Manager.{Manager, put, handle_device_loss, handle_device_update}
use connect_sdk_i_os_core.Manager.Listing.{handle_device_update-Lists}
use connect_sdk_i_os_core.Manager.Discovery.{lose_at, did_lose_service}
use connect_sdk_i_os_core.Manager.Discovery.Consistency.{
  IsConsistent, IsTouched, Settles, Differs, consistent_of_Lists, behind, put-IsTouched, put_here,
  put_same, unlisted_elsewhere, vacated,
}

pub address-remove_service_with_id :
    (d : Device) (service_id : Option String)
    → address (remove_service_with_id d service_id).0 ≡ address d
unfolding remove_service_with_id
address-remove_service_with_id d none = refl
address-remove_service_with_id d (some k) = ground arith

module _ (m : Manager) (a : String) (r : ℕ) (service_id : Option String) (c : IsConsistent m)
    (e : object_for_key a m.all_devices ≡ some r) where
  rest : Device
  rest = (remove_service_with_id (m.objects r) service_id).0

  abbrev m' : Manager
  unfolding rest
  m' = put m r rest

  stays : has_services rest ≡ true → Settles (handle_device_update m' r)
  unfolding rest
  stays t =
      consistent_of_Lists m' a r touched (handle_device_update m' r)
        (handle_device_update-Lists m' a r (behind m' a r touched))
    where
      touched : IsTouched m' a r
      touched = put-IsTouched m a r rest c e (record {
        served = t;
        filed = remove_service_with_id-IsFiled (m.objects r) service_id (c.served a r e).filed;
        at_address =
            address-remove_service_with_id (m.objects r) service_id ∙ (c.served a r e).at_address;
      })

  abbrev orphaned : Manager
  unfolding rest
  orphaned = record m' {
    all_devices = remove_object a m.all_devices;
    compatible_devices = remove_object a m.compatible_devices;
  }

  leaves : IsConsistent orphaned
  unfolding rest
  leaves = vacated m orphaned a r c differs (removed m.all_devices) (removed m.compatible_devices)
    where
      kept :
          (b : String) (d : Dict ℕ)
          → b ≢ a
          → object_for_key b (remove_object a d) ≡ object_for_key b d
      kept b d ne = ground (arith, object_for_key-remove_object a b d, text_eq_iff a b)

      removed : (d : Dict ℕ) → object_for_key a (remove_object a d) ≡ none
      removed d = object_for_key-remove_object a a d ∙ (rw ((text_eq_iff a a).1 refl) refl)

      differs : Differs m orphaned a r
      differs = record {
        same = put_same m r rest;
        filters = refl;
        grown = omega arith;
        unlisted = unlisted_elsewhere m a r c e;
        listed = λ b ne. kept b m.all_devices ne;
        shown = λ b ne. kept b m.compatible_devices ne;
      }

  lose_at-Settles : Settles (lose_at m a r service_id)
  unfolding lose_at rest
  lose_at-Settles = elim (Bool-cases (has_services rest)) [
    | inl t ↦ rw (put_here m r rest) (rw t (stays t))
    | inr t ↦ rw (put_here m r rest) (rw t (orphaned, handle_device_loss m' r, refl, leaves))
  ]

-- A loss is handled without an exception, whatever its description, and leaves the lists
-- consistent.
pub did_lose_service-IsConsistent :
    (m : Manager) (d : ServiceDescription) → IsConsistent m → Settles (did_lose_service m d)
unfolding did_lose_service
did_lose_service-IsConsistent m d c = go d.address
  where
    at_address :
        (a : String) (o : Option ℕ)
        → object_for_key a m.all_devices ≡ o
        → Settles (elim o [ none ↦ some (m, []) | some r ↦ lose_at m a r d.service_id ])
    at_address a none e = (m, [], refl, c)
    at_address a (some r) e = lose_at-Settles m a r d.service_id c e

    go :
        (o : Option String)
        → Settles (elim o [
          | none ↦ some (m, [])
          | some a ↦ elim (object_for_key a m.all_devices) [
            | none ↦ some (m, [])
            | some r ↦ lose_at m a r d.service_id
          ]
        ])
    go none = (m, [], refl, c)
    go (some a) = at_address a (object_for_key a m.all_devices) refl
