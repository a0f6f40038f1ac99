-- ===== src/Manager/Services/Keeps.antt =====
-- Discovery/DiscoveryManager.m: what `addServiceDescription:toDevice:` leaves on the device.
use connect_sdk_i_os_core.Prelude.{
  ◌<◌, String, ◌≡◌, ◌∙◌, sym, ap, refl, ◌⊎◌, inl, inr, true, false, [], ◌∷◌, Option, none, some,
  arith, text_eq, text_eq_iff, object_for_key, find_first, is_equal_to_string, Dict, IsDict,
  AllEntries, all_values, Bool-cases, Option-cases, length, ltb, object_for_key-set_object,
}
use connect_sdk_i_os_core.Description.{ServiceDescription}
use connect_sdk_i_os_core.Service.{DeviceService}
use connect_sdk_i_os_core.Device.{Device, address, has_services, adopt, remove_service_with_id}
use connect_sdk_i_os_core.Device.Filing.{
  Named, IsFiled, add_service_free, installed-IsFiled, remove_service_with_id-IsFiled,
  services-remove_service_with_id,
}
use connect_sdk_i_os_core.Manager.Services.{
  accepts_description, uuid_of, service_of_type, describe, add_new_service, add_service_description,
}

-- A device in use: it has a service, each is filed under its name, and it is at the address `a`.
pub record IsServed (a : String) (d : Device) : Type 0 where
  pub served : has_services d ≡ true
  pub filed : IsFiled d
  pub at_address : address d ≡ some a

has_services-of_lookup :
    (d : Device) (k : String) (s : DeviceService)
    → object_for_key k d.services ≡ some s
    → has_services d ≡ true
unfolding has_services
has_services-of_lookup d k s e = go d.services e
  where
    go : (l : Dict DeviceService) → object_for_key k l ≡ some s → ltb 0 (length l) ≡ true
    go [] e = unfold object_for_key in ground arith
    go (x ∷ l) e = ground arith

-- A name of which no service is found is free.
free_of_absent :
    (k : String) (l : Dict DeviceService)
    → AllEntries Named l
    → find_first (λ s. is_equal_to_string s.description.service_id (some k)) (all_values l) ≡ none
    → object_for_key k l ≡ none
unfolding find_first object_for_key
free_of_absent k [] h e = refl
free_of_absent k ((j, s) ∷ l) h e = elim (Bool-cases (text_eq j k)) [
  | inl t ↦ cc (rw t at (rw h.0 at e))
  | inr t ↦ rw t (free_of_absent k l h.1 (rw t at (rw h.0 at e)))
]

object_for_key-describe :
    (k j : String) (d : ServiceDescription) (l : Dict DeviceService)
    → object_for_key j l ≡ none
    → object_for_key j (describe (some k) d l) ≡ none
unfolding object_for_key describe
object_for_key-describe k j d [] e = refl
object_for_key-describe k j d ((i, s) ∷ l) e = ground (arith, object_for_key-describe k j d l)

describe-IsDict :
    (k : String) (d : ServiceDescription) (l : Dict DeviceService)
    → IsDict l
    → IsDict (describe (some k) d l)
unfolding describe
describe-IsDict k d [] h = h
describe-IsDict k d ((i, s) ∷ l) h = elim (Bool-cases (text_eq i k)) [
  | inl t ↦ rw t h
  | inr t ↦ rw t (object_for_key-describe k i d l h.0, describe-IsDict k d l h.1)
]

describe-Named :
    (k : String) (d : ServiceDescription) (l : Dict DeviceService)
    → d.service_id ≡ some k
    → AllEntries Named l
    → AllEntries Named (describe (some k) d l)
unfolding describe
describe-Named k d [] n h = h
describe-Named k d ((i, s) ∷ l) n h = elim (Bool-cases (text_eq i k)) [
  | inl t ↦ rw t (n ∙ ap some (sym ((text_eq_iff i k).0 t)), h.1)
  | inr t ↦ rw t (h.0, describe-Named k d l n h.1)
]

length-describe :
    (k : String) (d : ServiceDescription) (l : Dict DeviceService)
    → length (describe (some k) d l) ≡ length l
unfolding describe
length-describe k d [] = refl
length-describe k d ((i, s) ∷ l) = ground (arith, length-describe k d l)

has_services-of_length :
    (d : Device) (l : Dict DeviceService) → d.services ≡ l → 0 < length l → has_services d ≡ true
unfolding has_services
has_services-of_length d l e h = rw e (ground arith)

-- A description with all its keys, of a registered service.
module _ (instantiate : String → Option String → DeviceService) (d : ServiceDescription)
    (a k c : String) (address_set : d.address ≡ some a) (name_set : d.service_id ≡ some k) where
  abbrev pub Serves : Option Device → Type 0
  Serves o = (device' : Device) × (o ≡ some device') × IsServed a device'

  add_new_service-Serves :
      (config_uuid : Option String) (device : Device)
      → IsFiled device
      → object_for_key k device.services ≡ none
      → Serves (add_new_service instantiate (some c) d config_uuid device)
  unfolding add_new_service
  add_new_service-Serves config_uuid device h free =
      let (device', events, r, q, p) = add_service_free device s k name_set free in
      (
        device',
        rw r,
        record {
          served =
              has_services-of_lookup device' k (adopt s)
                (rw (q, object_for_key-set_object, (text_eq_iff k k).1 refl));
          filed = installed-IsFiled device device' s k name_set h q;
          at_address = p ∙ (rw address_set);
        },
      )
    where
      s : DeviceService
      s = record (instantiate c config_uuid) { description = d }

  -- The service of another UUID under the name is removed first.
  other_service :
      (config : Option (Option String)) (device : Device)
      → IsFiled device
      → Serves (
          add_new_service instantiate
            (some c)
            d
            (uuid_of config d)
            (remove_service_with_id device d.service_id).0)
  other_service config device h = simp name_set (
      add_new_service-Serves (uuid_of config d) (remove_service_with_id device (some k)).0
        (remove_service_with_id-IsFiled device (some k) h)
        (services-remove_service_with_id device k k ∙ (rw ((text_eq_iff k k).1 refl))))

  -- A service that is there is described anew.
  described :
      (device : Device) (s : DeviceService)
      → IsFiled device
      → service_of_type device (some k) ≡ some s
      → IsServed a
          (record device { description = d; services = describe d.service_id d device.services })
  unfolding service_of_type
  described device s h e = simp name_set (record {
    served = has_services-of_length _ (describe (some k) d device.services) refl (
        let same = length-describe k d device.services in
        let some_service = nonempty device.services e in omega arith);
    filed = record {
      keys = describe-IsDict k d device.services h.keys;
      named = describe-Named k d device.services name_set h.named;
    };
    at_address = address_set;
  })
    where
      nonempty :
          (l : Dict DeviceService)
          → find_first (λ x. is_equal_to_string x.description.service_id (some k)) (all_values l)
            ≡ some s
          → 0 < length l
      nonempty [] e = unfold find_first in ground arith
      nonempty (x ∷ l) e = omega arith

  -- On a device whose services are filed, a description with an address and the id of a registered
  -- service raises no exception: it is refused and changes nothing, or the device ends with a
  -- service, filed, and at the address of the description.
  pub add_service_description-Serves :
      (config : Option (Option String)) (device : Device)
      → IsFiled device
      → ((accepts_description c d ≡ false)
          × (add_service_description instantiate (some c) d config device ≡ some device))
        ⊎ Serves (add_service_description instantiate (some c) d config device)
  unfolding add_service_description
  add_service_description-Serves config device h = elim (Bool-cases (accepts_description c d)) [
    | inr no_service ↦ inl (no_service, rw no_service)
    | inl t ↦ elim (Option-cases (service_of_type device (some k))) [
      | inl absent ↦ inr (
          rw (t, name_set)
            (rw absent (
              add_new_service-Serves (uuid_of config d) device h
                (free_of_absent k device.services h.named (unfold service_of_type in absent)))))
      | inr (s, e) ↦ elim (Bool-cases (is_equal_to_string s.description.uuid d.uuid)) [
        | inl same ↦ inr (_, rw t (rw (found_by_id s e) (rw same refl)), described device s h e)
        | inr other ↦ inr (rw t (rw (found_by_id s e) (rw other (other_service config device h))))
      ]
    ]
  ]
    where
      found_by_id :
          (s : DeviceService)
          → service_of_type device (some k) ≡ some s
          → service_of_type device d.service_id ≡ some s
      found_by_id s e = simp name_set e
