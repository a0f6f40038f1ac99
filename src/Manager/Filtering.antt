-- ===== src/Manager/Filtering.antt =====
-- Discovery/DiscoveryManager.m: `setCapabilityFilters:`, which lists the devices anew.
use connect_sdk_i_os_core.Prelude.{
  ℕ, String, ◌≡◌, ◌∙◌, refl, subst, List, [], ◌∷◌, ◌++◌, Option, none, some, if◌then◌else◌, Dict,
  all_values, object_for_key, set_object, set_object?, IsDict, AllEntries, ◌>>=◌, Bool-cases,
  text_eq, text_eq_iff, arith, inl, inr, object_for_key-set_object,
}
use connect_sdk_i_os_core.Device.{address}
use connect_sdk_i_os_core.Manager.{
  Manager, ManagerEvent, Outcome, found, lost, to_delegate, is_compatible,
}
use connect_sdk_i_os_core.Manager.Listing.{expected}

unfoldable pub tell_each : Manager → List ℕ → List ManagerEvent
tell_each m [] = []
tell_each m (r ∷ rs) = to_delegate m lost r ++ tell_each m rs

unfoldable pub relist_one : Manager → ℕ → Outcome
relist_one m r =
    if is_compatible m r
    then (do
      compatible ← set_object? (address (m.objects r)) r m.compatible_devices
      some (record m { compatible_devices = compatible }, to_delegate m found r))
    else some (m, [])

unfoldable pub relist : Manager → List ℕ → Outcome
relist m [] = some (m, [])
relist m (r ∷ rs) = do
  (m', events) ← relist_one m r
  (m'', later) ← relist m' rs
  some (m'', events ++ later)

unfoldable pub set_capability_filters : Manager → List (List String) → Outcome
set_capability_filters m filters = do
  let lost_events = tell_each m (all_values m.compatible_devices)
  (m', events) ←
      relist (record m { capability_filters = filters; compatible_devices = [] })
        (all_values m.all_devices)
  some (m', lost_events ++ events)

-- What the devices of `l` make of what was shown before at an address.
abbrev relisted : Manager → Dict ℕ → (String → Option ℕ) → String → Option ℕ
relisted m l before b = elim (object_for_key b l) [
  | none ↦ before b
  | some r ↦ if is_compatible m r then some r else before b
]

abbrev AtAddress : Manager → String → ℕ → Type 0
AtAddress m a r = address (m.objects r) ≡ some a

-- What a round leaves: only what is shown changes.
record Round (m : Manager) (l : Dict ℕ) (o : Outcome) : Type 0 where
  shown : Dict ℕ
  events : List ManagerEvent
  answer : o ≡ some (record m { compatible_devices = shown }, events)
  shows :
      (b : String)
      → object_for_key b shown ≡ relisted m l (λ x. object_for_key x m.compatible_devices) b

relist_one-Round :
    (m : Manager) (a : String) (r : ℕ) → AtAddress m a r → Round m ((a, r) ∷ []) (relist_one m r)
unfolding relist_one object_for_key
relist_one-Round m a r e = elim (Bool-cases (is_compatible m r)) [
  | inl t ↦ rw t (
      rw e (record {
        shown = set_object a r m.compatible_devices;
        events = to_delegate m found r;
        answer = refl;
        shows = λ b. ground (arith, object_for_key-set_object a b r m.compatible_devices);
      }))
  | inr t ↦ rw t (record {
    shown = m.compatible_devices;
    events = [];
    answer = refl;
    shows = λ b. ground arith;
  })
]

join :
    (m : Manager) (a b : String) (r : ℕ) (l shown : Dict ℕ)
    → object_for_key a l ≡ none
    → object_for_key b shown
      ≡ relisted m ((a, r) ∷ []) (λ x. object_for_key x m.compatible_devices) b
    → relisted m l (λ x. object_for_key x shown) b
      ≡ relisted m ((a, r) ∷ l) (λ x. object_for_key x m.compatible_devices) b
unfolding object_for_key
join m a b r l shown absent s = elim (Bool-cases (text_eq a b)) [
  | inl t ↦
      let gone : object_for_key b l ≡ none =
        subst (λ y. object_for_key y l ≡ none) ((text_eq_iff a b).0 t) absent in
      ground arith
  | inr t ↦ ground arith
]

relist-Round :
    (m : Manager) (l : Dict ℕ)
    → IsDict l
    → AllEntries (AtAddress m) l
    → Round m l (relist m (all_values l))
unfolding relist object_for_key
relist-Round m [] u h = record {
  shown = m.compatible_devices;
  events = [];
  answer = refl;
  shows = λ b. refl;
}
relist-Round m ((a, r) ∷ l) (absent, u) (e, h) =
    let x = relist_one-Round m a r e in
    let y = relist-Round (record m { compatible_devices = x.shown }) l u h in
    record {
      shown = y.shown;
      events = x.events ++ y.events;
      answer = rw (x.answer) (rw (y.answer) refl);
      shows = λ b. y.shows b ∙ join m a b r l x.shown absent (x.shows b);
    }

-- Behind a change of the filters no exception is raised, and the compatible devices are exactly the
-- devices that pass the new filters.
pub set_capability_filters-exact :
    (m : Manager) (filters : List (List String))
    → IsDict m.all_devices
    → AllEntries (AtAddress m) m.all_devices
    → (m' : Manager) × (events : List ManagerEvent) × (set_capability_filters m filters
        ≡ some (m', events))
      × (m'.capability_filters ≡ filters)
      × (m'.all_devices ≡ m.all_devices)
      × ((a : String) → object_for_key a m'.compatible_devices ≡ expected m' a)
unfolding set_capability_filters
set_capability_filters-exact m filters u h =
    let x =
      relist-Round (record m { capability_filters = filters; compatible_devices = [] })
        m.all_devices u h in
    (
      record m { capability_filters = filters; compatible_devices = x.shown },
      tell_each m (all_values m.compatible_devices) ++ x.events,
      rw x.answer refl,
      refl,
      refl,
      λ a. x.shows a ∙ hidden a (object_for_key a m.all_devices),
    )
  where
    hidden :
        (a : String) (o : Option ℕ)
        → elim o [
          | none ↦ object_for_key a []
          | some r ↦
              if is_compatible (record m { capability_filters = filters }) r
              then some r
              else object_for_key a []
        ]
          ≡ elim o [
            | none ↦ none
            | some r ↦
                if is_compatible (record m { capability_filters = filters }) r then some r else none
          ]
    hidden a o = unfold object_for_key in refl
