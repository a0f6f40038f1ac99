-- ===== src/Picker/Mirror.antt =====
-- Devices/DevicePicker.m beside Discovery/DiscoveryManager.m: what the picker holds, when it hears
-- what the manager tells it.
pub mod Reports
pub mod Watching
use connect_sdk_i_os_core.Prelude.{
  ℕ, String, ◌≡◌, ◌∙◌, sym, ap, refl, subst, Bool, true, false, List, [], ◌∷◌, ◌++◌, Option, none,
  some, if◌then◌else◌, ◌>>=◌, arith, Dict, object_for_key, set_object, set_object?, object_for,
  is_set, remove_object, object_for_key-set_object, object_for_key-remove_object, Bool-cases, inl,
  inr, Option-cases, some_injective, text_eq,
}
use connect_sdk_i_os_core.Device.{Device, address}
use connect_sdk_i_os_core.Manager.{
  Manager, ManagerEvent, Outcome, Change, found, lost, updated, told, delegate, picker,
  store_update, disconnect_device, provider, ssid_changed, start_listening, stop_listening, notify,
  is_compatible, list_device, unlist_device, add_updated, handle_device_add, handle_device_update,
  handle_device_loss, to_delegate, to_picker, remove_object?,
}
use connect_sdk_i_os_core.Picker.{
  Picker, hear, did_find_device, did_lose_device, did_update_device, later_reload, sort_devices,
}

-- Which message of the manager the picker gets.
abbrev pub heard : ManagerEvent → Option (Change × ℕ)
heard (told delegate change r) = none
heard (told picker change r) = some (change, r)
heard (store_update r) = none
heard (disconnect_device r) = none
heard (provider action r) = none
heard ssid_changed = none
heard start_listening = none
heard stop_listening = none

abbrev pub hear_one : (ℕ → Device) → Option (Change × ℕ) → Picker → Option Picker
hear_one objects none p = some p
hear_one objects (some (change, r)) p = hear objects change r p

-- The picker gets its messages of a report, in order.
unfoldable pub hear_all : (ℕ → Device) → List ManagerEvent → Picker → Option Picker
hear_all objects [] p = some p
hear_all objects (e ∷ es) p = do p' ← hear_one objects (heard e) p; hear_all objects es p'

abbrev pub IsMirrored : Picker → Manager → Type 0
IsMirrored p m = (k : String) → object_for_key k p.devices ≡ object_for_key k m.compatible_devices

-- A picker that has the compatible devices before hears of the change without an exception, and has
-- them behind it.
pub record IsFollowed (m m' : Manager) (events : List ManagerEvent) : Type 0 where
  pub kept : m'.has_picker ≡ m.has_picker
  pub follows :
      m.has_picker ≡ true
      → (p : Picker) → IsMirrored p m
      → (p' : Picker) × (hear_all m'.objects events p ≡ some p') × IsMirrored p' m'

abbrev pub Follows : Manager → Outcome → Type 0
Follows m o =
    (m' : Manager) (events : List ManagerEvent) → o ≡ some (m', events) → IsFollowed m m' events

-- An outcome that raises no exception is followed if its manager and events are.
pub Follows-some :
    (m n : Manager) (es : List ManagerEvent) → IsFollowed m n es → Follows m (some (n, es))
Follows-some m n es h m' events e =
    let same : (n, es) ≡ (m', events) = some_injective e in
    subst (λ (o : Manager × List ManagerEvent). IsFollowed m o.0 o.1) same h

pub Follows-none : (m : Manager) → Follows m none
Follows-none m m' events e = absurd (cc e)

pub IsFollowed-silent : (m : Manager) → IsFollowed m m []
unfolding hear_all
IsFollowed-silent m = record { kept = refl; follows = λ t p h. (p, refl, h) }

hear_all-notify :
    (objects : ℕ → Device) (m : Manager) (change : Change) (r : ℕ) (p p' : Picker)
    → m.has_picker ≡ true
    → hear objects change r p ≡ some p'
    → hear_all objects (notify m change r) p ≡ some p'
unfolding hear_all notify to_delegate to_picker
hear_all-notify objects m change r p p' t e = elim (Bool-cases m.has_delegate) [
  | inl d ↦ rw (d, t) (rw e refl)
  | inr d ↦ rw (d, t) (rw e refl)
]

module _ (m : Manager) (r : ℕ) where
  abbrev listed : Dict ℕ → Manager
  listed compatible = record m { compatible_devices = compatible }

  IsFollowed-found :
      (a : String)
      → address (m.objects r) ≡ some a
      → IsFollowed m (listed (set_object a r m.compatible_devices)) (notify m found r)
  IsFollowed-found a e = record {
    kept = refl;
    follows = λ t p h.
        let p' : Picker =
          later_reload (sort_devices (record p { devices = set_object a r p.devices })) in
        (
          p',
          hear_all-notify m.objects m found r p p' t (unfold hear did_find_device in rw e refl),
          λ k.
              unfold later_reload sort_devices in
              (object_for_key-set_object a k r p.devices
                ∙ (ap (λ o. if text_eq a k then some r else o) (h k)
                    ∙ sym (object_for_key-set_object a k r m.compatible_devices))),
        );
  }

  pub IsFollowed-lost :
      (n : Manager) (a : String)
      → n.has_picker ≡ m.has_picker
      → address (n.objects r) ≡ some a
      → n.compatible_devices ≡ remove_object a m.compatible_devices
      → IsFollowed m n (notify m lost r)
  IsFollowed-lost n a same e c = record {
    kept = same;
    follows = λ t p h.
        let p' : Picker =
          later_reload (sort_devices (record p { devices = remove_object a p.devices })) in
        (
          p',
          hear_all-notify n.objects m lost r p p' t (unfold hear did_lose_device in rw e refl),
          λ k.
              unfold later_reload sort_devices in
              (object_for_key-remove_object a k p.devices
                ∙ (ap (λ o. if text_eq a k then none else o) (h k)
                    ∙ (sym (object_for_key-remove_object a k m.compatible_devices)
                        ∙ ap (object_for_key k) (sym c)))),
        );
  }

  IsFollowed-updated : IsFollowed m m (notify m updated r)
  IsFollowed-updated = record {
    kept = refl;
    follows = λ t p h. (
      later_reload p,
      hear_all-notify m.objects m updated r p (later_reload p) t
          (unfold hear did_update_device in refl),
      unfold later_reload in h,
    );
  }

  -- The device store is told first, and the picker does not hear of it.
  IsFollowed-stored :
      (n : Manager) (events : List ManagerEvent)
      → IsFollowed m n events
      → IsFollowed m n (store_update r ∷ events)
  unfolding hear_all
  IsFollowed-stored n events f = record { kept = f.kept; follows = f.follows }

  list_device-Follows : Follows m (list_device m r)
  unfolding list_device
  list_device-Follows = go (address (m.objects r)) refl
    where
      go :
          (o : Option String)
          → address (m.objects r) ≡ o
          → Follows m (do
            compatible ← set_object? o r m.compatible_devices
            some (record m { compatible_devices = compatible }, notify m found r))
      go none e = Follows-none m
      go (some a) e = Follows-some m _ _ (IsFollowed-found a e)

  pub handle_device_add-Follows : Follows m (handle_device_add m r)
  unfolding handle_device_add
  handle_device_add-Follows = elim (Bool-cases (is_compatible m r)) [
    | inl t ↦ rw t list_device-Follows
    | inr t ↦ rw t (Follows-some m m [] (IsFollowed-silent m))
  ]

  unlist_device-Follows : Follows m (unlist_device m r)
  unfolding unlist_device handle_device_loss
  unlist_device-Follows = go (address (m.objects r)) refl
    where
      go :
          (o : Option String)
          → address (m.objects r) ≡ o
          → Follows m (do
            compatible ← remove_object? o m.compatible_devices
            some (
              record m { compatible_devices = compatible },
              store_update r ∷ handle_device_loss m r,
            ))
      go none e = Follows-none m
      go (some a) e = Follows-some m _ _ (
          IsFollowed-stored _ _
            (IsFollowed-lost (listed (remove_object a m.compatible_devices)) a refl e refl))

  add_updated-Follows : Follows m (add_updated m r)
  unfolding add_updated
  add_updated-Follows = go (handle_device_add m r) handle_device_add-Follows
    where
      go :
          (o : Outcome)
          → Follows m o
          → Follows m (do (m', events) ← o; some (m', store_update r ∷ events))
      go none f = Follows-none m
      go (some (n, es)) f = Follows-some m _ _ (IsFollowed-stored n es (f n es refl))

  pub handle_device_update-Follows : Follows m (handle_device_update m r)
  unfolding handle_device_update
  handle_device_update-Follows = elim (Bool-cases (is_compatible m r)) [
    | inr t ↦ rw t unlist_device-Follows
    | inl t ↦ elim (Bool-cases (is_set (object_for (address (m.objects r)) m.compatible_devices))) [
      | inl s ↦ rw (t, s) (Follows-some m m _ (IsFollowed-stored m _ IsFollowed-updated))
      | inr s ↦ rw (t, s) add_updated-Follows
    ]
  ]
