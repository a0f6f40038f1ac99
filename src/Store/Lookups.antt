-- ===== src/Store/Lookups.antt =====
-- Devices/DefaultConnectableDeviceStore.m: what the stored dictionary answers behind a cleaning.
use connect_sdk_i_os_core.Prelude.{
  ℕ, String, ◌≡◌, ◌∙◌, refl, Bool, false, List, [], ◌∷◌, Option, none, some, if◌then◌else◌, Dict,
  object_for_key, remove_object, object_for_key-remove_object, remove_object-IsDict, IsDict,
  contains_object, text_eq, text_eq_iff, arith, Bool-cases, inl, inr,
}
use connect_sdk_i_os_core.Store.{
  StoredDevice, Store, is_old, old_keys, remove_objects, delete_old_unused_devices,
  set_max_store_duration, compose_file, store,
}

-- A record that is not old, as a cleaning leaves it.
abbrev pub fresh_record : ℕ → ℕ → Option StoredDevice → Option StoredDevice
fresh_record max now none = none
fresh_record max now (some d) = if is_old max now d then none else some d

object_for_key-remove_objects :
    (keys : List String) (j : String) (ds : Dict StoredDevice)
    → object_for_key j (remove_objects keys ds)
      ≡ (if contains_object j keys then none else object_for_key j ds)
unfolding remove_objects contains_object
object_for_key-remove_objects [] j ds = refl
object_for_key-remove_objects (k ∷ ks) j ds = ground (
  arith,
  text_eq_iff k j,
  text_eq_iff j k,
  object_for_key-remove_objects ks j (remove_object k ds),
  object_for_key-remove_object k j ds,
)

remove_objects-IsDict :
    (keys : List String) (ds : Dict StoredDevice) → IsDict ds → IsDict (remove_objects keys ds)
unfolding remove_objects
remove_objects-IsDict [] ds h = h
remove_objects-IsDict (k ∷ ks) ds h =
    remove_objects-IsDict ks (remove_object k ds) (remove_object-IsDict k ds h)

is_old_record : ℕ → ℕ → Option StoredDevice → Bool
is_old_record max now none = false
is_old_record max now (some d) = is_old max now d

contains_object-old_keys :
    (max now : ℕ) (j : String) (ds : Dict StoredDevice)
    → IsDict ds
    → contains_object j (old_keys max now ds) ≡ is_old_record max now (object_for_key j ds)
unfolding old_keys object_for_key is_old_record contains_object
contains_object-old_keys max now j [] h = refl
contains_object-old_keys max now j ((k, d) ∷ ds) (e, h) = elim (Bool-cases (text_eq k j)) [
  | inl t ↦
      let rest = contains_object-old_keys max now j ds h in
      let absent : object_for_key j ds ≡ none = rw ((text_eq_iff k j).0 t) at e in
      let rest' : contains_object j (old_keys max now ds) ≡ false = rw absent at rest in
      elim (Bool-cases (is_old max now d)) [
        | inl o ↦ rw (o, t, o) refl
        | inr o ↦ rw (o, t, rest', o) refl
      ]
  | inr t ↦
      let rest = contains_object-old_keys max now j ds h in
      elim (Bool-cases (is_old max now d)) [ inl o ↦ rw (o, t) rest | inr o ↦ rw (o, t) rest ]
]

fresh_record_lem :
    (max now : ℕ) (o : Option StoredDevice)
    → (if is_old_record max now o then none else o) ≡ fresh_record max now o
unfolding is_old_record
fresh_record_lem max now none = refl
fresh_record_lem max now (some d) = refl

-- A change of the age limit drops the records that are old by the new limit, and no other.
pub object_for_key-set_max_store_duration :
    (max now : ℕ) (j : String) (s : Store)
    → IsDict s.stored_devices
    → object_for_key j (set_max_store_duration max now s).stored_devices
      ≡ fresh_record max now (object_for_key j s.stored_devices)
unfolding set_max_store_duration delete_old_unused_devices
object_for_key-set_max_store_duration max now j s h =
    object_for_key-remove_objects (old_keys max now ds) j ds
    ∙ rw (contains_object-old_keys max now j ds h) (fresh_record_lem max now (object_for_key j ds))
  where
    ds : Dict StoredDevice
    ds = s.stored_devices

pub object_for_key-store :
    (now : ℕ) (j : String) (s : Store)
    → IsDict s.stored_devices
    → object_for_key j (store now s).stored_devices
      ≡ fresh_record s.max_store_duration now (object_for_key j s.stored_devices)
unfolding store compose_file
object_for_key-store now j s h =
    object_for_key-set_max_store_duration s.max_store_duration now j s h

pub store-IsDict :
    (now : ℕ) (s : Store) → IsDict s.stored_devices → IsDict (store now s).stored_devices
unfolding store compose_file set_max_store_duration delete_old_unused_devices
store-IsDict now s h = remove_objects-IsDict _ s.stored_devices h
