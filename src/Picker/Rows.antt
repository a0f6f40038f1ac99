-- ===== src/Picker/Rows.antt =====
-- Devices/DevicePicker.m: the rows of the table, behind any sequence of calls of the picker.
pub mod Devices
use connect_sdk_i_os_core.Prelude.{
  ℕ, suc, ◌-◌, String, ◌≡◌, ◌∙◌, sym, ap, refl, subst, ◌⊎◌, inl, inr, Bool, true, false, List, [],
  ◌∷◌, Option, none, some, some_injective, if◌then◌else◌, ◌>>=◌, arith, Dict, IsDict, set_object,
  remove_object, set_object?, set_object-IsDict, remove_object-IsDict, all_values, Bool-cases,
  is_set, SameCounts,
}
use connect_sdk_i_os_core.Device.{Device, address}
use connect_sdk_i_os_core.Manager.{Change, found, lost, updated, remove_object?}
use connect_sdk_i_os_core.Picker.{
  Picker, PickerEvent, ComparisonResult, new_picker, rows_of, number_of_rows, reload_table,
  set_current_device, cleanup_views, sort_devices, later_reload, show_picker, show_action_sheet,
  dismiss_picker, popover_did_dismiss, action_sheet_did_dismiss, action_sheet_cancel,
  object_at_index_of, clicked_button, run_reload, selected, is_current, did_select_row,
  did_find_device, did_lose_device, did_update_device, hear, compare_names, run_sort,
}

-- The calls of the picker, by the client, the manager, the views and the queues.
pub data PickerCall : Type 0 where
  hears : Change → ℕ → PickerCall
  marks : Option ℕ → PickerCall
  shows : ℕ → Bool → PickerCall
  shows_action_sheet : PickerCall
  dismisses popover_goes sheet_goes sheet_cancels : PickerCall
  clicks : ℕ → PickerCall
  selects_row : ℕ → PickerCall
  sorts_now reloads_now : PickerCall

abbrev pub silent : Option Picker → Option (Picker × List PickerEvent)
silent none = none
silent (some p) = some (p, [])

abbrev pub kept_by : Picker → Option (List PickerEvent) → Option (Picker × List PickerEvent)
kept_by p none = none
kept_by p (some events) = some (p, events)

module _ (objects : ℕ → Device) (unnamed : String) (lowercase : String → String)
    (compare : String → String → ComparisonResult)
    (sorted_array : (ℕ → ℕ → ComparisonResult) → List ℕ → List ℕ) where
  unfoldable pub perform : PickerCall → Picker → Option (Picker × List PickerEvent)
  perform (hears change r) p = silent (hear objects change r p)
  perform (marks r) p = some (set_current_device r p, [])
  perform (shows filters presented) p = some (show_picker filters presented p, [])
  perform shows_action_sheet p = some (show_action_sheet p, [])
  perform dismisses p = some (dismiss_picker p)
  perform popover_goes p = some (popover_did_dismiss p)
  perform sheet_goes p = some (action_sheet_did_dismiss p, [])
  perform sheet_cancels p = some (action_sheet_cancel p)
  perform (clicks i) p = kept_by p (clicked_button i p)
  perform (selects_row i) p = did_select_row objects i p
  perform sorts_now p = some (run_sort objects unnamed lowercase compare sorted_array p, [])
  perform reloads_now p = some (run_reload p, [])

abbrev pub rows : Picker → List ℕ
rows p = elim p.generated_device_list [ none ↦ [] | some rs ↦ rs ]

-- Once no block waits to sort, the rows are the devices in some order. The button that cancels is
-- the last one.
pub record IsKept (p : Picker) : Type 0 where
  pub one_each : IsDict p.devices
  pub settled : p.sorts ≡ 0 → SameCounts (rows p) (all_values p.devices)
  pub sheet :
      (p.cancel_button_index ≡ none)
      ⊎ (p.cancel_button_index ≡ some (rows_of p.action_sheet_device_list))

-- `sortedArrayUsingComparator:` answers the elements of the array in some order.
abbrev pub IsReordering : ((ℕ → ℕ → ComparisonResult) → List ℕ → List ℕ) → Type 0
IsReordering sorted_array =
    (cmp : ℕ → ℕ → ComparisonResult) (rs : List ℕ) → SameCounts (sorted_array cmp rs) rs

IsKept-new_picker : IsKept new_picker
unfolding new_picker
IsKept-new_picker = record { one_each = tt; settled = λ e r. refl; sheet = inl refl }

-- The views do not matter to the rows.
IsKept-cleanup_views : (p : Picker) → IsKept p → IsKept (cleanup_views p)
unfolding cleanup_views
IsKept-cleanup_views p k = record { one_each = k.one_each; settled = k.settled; sheet = inl refl }

IsKept-reload_table : (p : Picker) → IsKept p → IsKept (reload_table p)
unfolding reload_table
IsKept-reload_table p k = elim (Bool-cases (is_set p.rows_shown)) [
  | inl t ↦ rw t record { one_each = k.one_each; settled = k.settled; sheet = k.sheet }
  | inr t ↦ rw t k
]

IsKept-show_picker :
    (filters : ℕ) (presented : Bool) (p : Picker)
    → IsKept p
    → IsKept (show_picker filters presented p)
unfolding show_picker sort_devices
IsKept-show_picker filters true p k = record {
  one_each = k.one_each;
  settled = λ e. absurd (omega (arith, e));
  sheet = k.sheet;
}
IsKept-show_picker filters false p k =
    unfold cleanup_views in
    record { one_each = k.one_each; settled = λ e. absurd (omega (arith, e)); sheet = inl refl }

IsKept-hear :
    (objects : ℕ → Device) (change : Change) (r : ℕ) (p p' : Picker)
    → IsKept p
    → hear objects change r p ≡ some p'
    → IsKept p'
unfolding hear did_find_device did_lose_device did_update_device later_reload sort_devices
IsKept-hear objects found r p p' k e = go (address (objects r)) e
  where
    go :
        (a : Option String)
        → ((do
          devices ← set_object? a r p.devices
          some (later_reload (sort_devices (record p { devices = devices }))))
            ≡ some p')
        → IsKept p'
    go none x = absurd (cc x)
    go (some a) x = subst IsKept (some_injective x) (record {
      one_each = set_object-IsDict a r p.devices k.one_each;
      settled = λ z. absurd (omega (arith, z));
      sheet = k.sheet;
    })
IsKept-hear objects lost r p p' k e = go (address (objects r)) e
  where
    go :
        (a : Option String)
        → ((do
          devices ← remove_object? a p.devices
          some (later_reload (sort_devices (record p { devices = devices }))))
            ≡ some p')
        → IsKept p'
    go none x = absurd (cc x)
    go (some a) x = subst IsKept (some_injective x) (record {
      one_each = remove_object-IsDict a p.devices k.one_each;
      settled = λ z. absurd (omega (arith, z));
      sheet = k.sheet;
    })
IsKept-hear objects updated r p p' k e =
    subst IsKept (some_injective e)
      (record { one_each = k.one_each; settled = k.settled; sheet = k.sheet })

IsKept-show_action_sheet : (p : Picker) → IsKept p → IsKept (show_action_sheet p)
unfolding show_action_sheet
IsKept-show_action_sheet p k = record {
  one_each = k.one_each;
  settled = k.settled;
  sheet = inr refl;
}

-- The picker of an answer.
abbrev pub Keeps : Option (Picker × List PickerEvent) → Type 0
Keeps o = (p' : Picker) (events : List PickerEvent) → o ≡ some (p', events) → IsKept p'

Keeps-some : (p : Picker) (events : List PickerEvent) → IsKept p → Keeps (some (p, events))
Keeps-some p events k p' es e =
    let same : (p, events) ≡ (p', es) = some_injective e in
    subst (λ (x : Picker × List PickerEvent). IsKept x.0) same k

Keeps-none : Keeps none
Keeps-none p' es e = absurd (cc e)

module _ (objects : ℕ → Device) (unnamed : String) (lowercase : String → String)
    (compare : String → String → ComparisonResult)
    (sorted_array : (ℕ → ℕ → ComparisonResult) → List ℕ → List ℕ) where
  selects-Keeps : (i : ℕ) (p : Picker) → IsKept p → Keeps (did_select_row objects i p)
  unfolding did_select_row dismiss_picker
  selects-Keeps i p k = go (object_at_index_of i p.generated_device_list)
    where
      go : (o : Option (Option ℕ)) → Keeps (do r ← o; some (selected objects p r))
      go none = Keeps-none
      go (some r) = elim (Bool-cases (is_current objects p r)) [
        | inl t ↦ rw t (Keeps-some p [] k)
        | inr t ↦ rw t (Keeps-some (cleanup_views p) _ (IsKept-cleanup_views p k))
      ]

  perform-Keeps :
      IsReordering sorted_array
      → (call : PickerCall) (p : Picker) → IsKept p
      → Keeps (perform objects unnamed lowercase compare sorted_array call p)
  unfolding perform set_current_device dismiss_picker popover_did_dismiss action_sheet_did_dismiss
      action_sheet_cancel run_reload run_sort
  perform-Keeps s (hears change r) p k = go (hear objects change r p) refl
    where
      go : (o : Option Picker) → hear objects change r p ≡ o → Keeps (silent o)
      go none e = Keeps-none
      go (some q) e = Keeps-some q [] (IsKept-hear objects change r p q k e)
  perform-Keeps s (marks r) p k = Keeps-some _ [] (
      IsKept-reload_table (record p { current_device = r })
        (record { one_each = k.one_each; settled = k.settled; sheet = k.sheet }))
  perform-Keeps s (shows filters presented) p k =
      Keeps-some _ [] (IsKept-show_picker filters presented p k)
  perform-Keeps s shows_action_sheet p k = Keeps-some _ [] (IsKept-show_action_sheet p k)
  perform-Keeps s dismisses p k = Keeps-some _ _ (IsKept-cleanup_views p k)
  perform-Keeps s popover_goes p k = Keeps-some _ _ (IsKept-cleanup_views p k)
  perform-Keeps s sheet_goes p k = Keeps-some _ [] (IsKept-cleanup_views p k)
  perform-Keeps s sheet_cancels p k = Keeps-some _ _ (IsKept-cleanup_views p k)
  perform-Keeps s (clicks i) p k = go (clicked_button i p)
    where
      go : (o : Option (List PickerEvent)) → Keeps (kept_by p o)
      go none = Keeps-none
      go (some es) = Keeps-some p es k
  perform-Keeps s (selects_row i) p k = selects-Keeps i p k
  perform-Keeps s sorts_now p k = Keeps-some _ [] (record {
    one_each = k.one_each;
    settled = λ z. s (compare_names objects unnamed lowercase compare) (all_values p.devices);
    sheet = k.sheet;
  })
  perform-Keeps s reloads_now p k = Keeps-some _ [] (
      IsKept-reload_table (record p { reloads = p.reloads - 1 })
        (record { one_each = k.one_each; settled = k.settled; sheet = k.sheet }))

  -- If sorting an array only reorders it: whatever call the picker gets, whatever the addresses and
  -- names of the devices are by then, where it raises no exception these stay true: no address
  -- twice, the rows are the devices in some order once no block waits to sort, and the button that
  -- cancels is the last.
  pub perform-IsKept :
      (call : PickerCall) (p p' : Picker) (events : List PickerEvent)
      → IsReordering sorted_array
      → IsKept p
      → perform objects unnamed lowercase compare sorted_array call p ≡ some (p', events)
      → IsKept p'
  perform-IsKept call p p' events s k e = perform-Keeps s call p k p' events e
