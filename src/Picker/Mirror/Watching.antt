-- ===== src/Picker/Mirror/Watching.antt =====
-- Devices/DevicePicker.m beside Discovery/DiscoveryManager.m: the picker from when `devicePicker`
-- makes it, behind any reports of the discovery providers.
use connect_sdk_i_os_core.Prelude.{
  ℕ, String, ◌≡◌, ◌∙◌, sym, ap, refl, subst, true, false, List, [], ◌∷◌, ◌++◌, Option, none, some,
  if◌then◌else◌, ◌>>=◌, or_else, some_injective, arith, Dict, IsDict, AllEntries, object_for_key,
  set_object, object_for_key-set_object, Bool-cases, inl, inr, text_eq, text_eq_iff, map,
  all_values,
}
use connect_sdk_i_os_core.Service.{DeviceService}
use connect_sdk_i_os_core.Device.{Device, address}
use connect_sdk_i_os_core.Manager.{Manager, is_compatible, ManagerEvent, told, picker, found}
use connect_sdk_i_os_core.Manager.Search.{device_picker}
use connect_sdk_i_os_core.Manager.Discovery.Consistency.{IsConsistent}
use connect_sdk_i_os_core.Manager.Reports.{
  ProviderMessage, handle_report, handle_reports, told_before, AreSound, handle_report-IsConsistent,
}
use connect_sdk_i_os_core.Picker.{
  Picker, new_picker, hear, did_find_device, later_reload, sort_devices,
}
use connect_sdk_i_os_core.Picker.Mirror.{hear_all, IsMirrored}
use connect_sdk_i_os_core.Picker.Mirror.Reports.{handle_report-Follows}

module _ (instantiate : String → Option String → DeviceService) where
  -- The picker of a manager that hears of the reports one by one.
  unfoldable pub watch_reports : Manager → List ProviderMessage → Picker → Option Picker
  watch_reports m [] p = some p
  watch_reports m (message ∷ messages) p = do
    (m', events) ← handle_report instantiate m message
    p' ← hear_all m'.objects events p
    watch_reports m' messages p'

  -- Whatever the providers report, in any order, if each report is sound when it comes: a picker
  -- that has the compatible devices of a consistent manager hears of all changes without an
  -- exception, and has the compatible devices behind them.
  pub watch_reports-IsMirrored :
      (m : Manager) (messages : List ProviderMessage) (p : Picker)
      → IsConsistent m
      → AreSound instantiate m messages
      → m.has_picker ≡ true
      → IsMirrored p m
      → (m' : Manager) × (events : List ManagerEvent) × (p' : Picker) × (handle_reports instantiate
            m messages
          ≡ some (m', events))
        × (watch_reports m messages p ≡ some p')
        × IsMirrored p' m'
  unfolding watch_reports handle_reports
  watch_reports-IsMirrored m [] p c h t s = (m, [], p, refl, refl, s)
  watch_reports-IsMirrored m (message ∷ messages) p c (sound, rest) t s =
      let (m', events, e, c') = handle_report-IsConsistent instantiate m message c sound in
      let f = handle_report-Follows instantiate m c message m' events e in
      let (p', g, s') = f.follows t p s in
      let (m'', later, p'', e', g', s'') =
        watch_reports-IsMirrored m' messages p' c' (rest m' events e) (f.kept ∙ t) s' in
      (m'', events ++ later, p'', rw e (ap (λ o. o >>= told_before events) e'), rw e (rw g g'), s'')

-- Every device that stands in the dictionary is at the address that it stands for.
abbrev pub AreFiled : (ℕ → Device) → Dict ℕ → Type 0
AreFiled objects d = AllEntries (λ k r. address (objects r) ≡ some k) d

set_before :
    (a k : String) (r : ℕ) (d e : Dict ℕ)
    → object_for_key a d ≡ none
    → or_else (object_for_key k d) (object_for_key k (set_object a r e))
      ≡ or_else (if text_eq a k then some r else object_for_key k d) (object_for_key k e)
set_before a k r d e fresh = elim (Bool-cases (text_eq a k)) [
  | inl t ↦
      let absent : object_for_key k d ≡ none = ground (arith, text_eq_iff a k) in
      rw (object_for_key-set_object a k r e, t) (rw absent refl)
  | inr t ↦ rw (object_for_key-set_object a k r e, t) refl
]

-- The picker hears of every value, and has each key's.
hear_found :
    (objects : ℕ → Device) (d : Dict ℕ) (p : Picker)
    → IsDict d
    → AreFiled objects d
    → (p' : Picker) × (hear_all objects (map (told picker found) (all_values d)) p ≡ some p')
      × ((k : String)
          → object_for_key k p'.devices ≡ or_else (object_for_key k d) (object_for_key k p.devices))
unfolding hear_all object_for_key hear did_find_device later_reload sort_devices
hear_found objects [] p h f = (p, refl, λ k. refl)
hear_found objects ((a, r) ∷ d) p (fresh, h) (at, f) =
    let q : Picker =
      later_reload (sort_devices (record p { devices = set_object a r p.devices })) in
    let (p', e, s) = hear_found objects d q h f in
    (p', rw at e, λ k. s k ∙ set_before a k r d p.devices fresh)

AreFiled-of_lookups :
    (objects : ℕ → Device) (d : Dict ℕ)
    → IsDict d
    → ((k : String) (r : ℕ) → object_for_key k d ≡ some r → address (objects r) ≡ some k)
    → AreFiled objects d
unfolding object_for_key
AreFiled-of_lookups objects [] h f = tt
AreFiled-of_lookups objects ((a, r) ∷ d) (fresh, h) f = (
  f a r (rw ((text_eq_iff a a).1 refl) refl),
  AreFiled-of_lookups objects d h (λ k x e. f k x (ground (arith, text_eq_iff a k))),
)

-- The picker that `devicePicker` makes for a consistent manager hears of every compatible device,
-- without an exception, and starts with exactly these.
pub device_picker-IsMirrored :
    (m : Manager)
    → IsConsistent m
    → IsDict m.compatible_devices
    → m.has_picker ≡ false
    → (p : Picker) × (hear_all m.objects (device_picker m).1 new_picker ≡ some p)
      × IsMirrored p (device_picker m).0
unfolding device_picker new_picker object_for_key
device_picker-IsMirrored m c h none_yet =
    let (p, e, s) =
      hear_found m.objects m.compatible_devices new_picker h
        (AreFiled-of_lookups m.objects m.compatible_devices h filed) in
    rw none_yet (p, e, λ k. s k ∙ or_else-none (object_for_key k m.compatible_devices))
  where
    or_else-none : (o : Option ℕ) → or_else o none ≡ o
    or_else-none none = refl
    or_else-none (some r) = refl

    listed :
        (k : String) (r : ℕ) (o : Option ℕ)
        → object_for_key k m.all_devices ≡ o
        → object_for_key k m.compatible_devices
          ≡ (elim o [ none ↦ none | some x ↦ if is_compatible m x then some x else none ])
        → object_for_key k m.compatible_devices ≡ some r
        → address (m.objects r) ≡ some k
    listed k r none e x y = cc
    listed k r (some z) e x y = elim (Bool-cases (is_compatible m z)) [
      | inl t ↦
          let same : z ≡ r = some_injective (sym (x ∙ (rw t refl)) ∙ y) in
          subst (λ w. address (m.objects w) ≡ some k) same (c.served k z e).at_address
      | inr t ↦ cc (x, y, t)
    ]

    filed :
        (k : String) (r : ℕ)
        → object_for_key k m.compatible_devices ≡ some r
        → address (m.objects r) ≡ some k
    filed k r e = listed k r (object_for_key k m.all_devices) refl (c.exact k) e
