-- ===== src/Tests/Pickers.antt =====
-- The device picker at work beside a manager.
use connect_sdk_i_os_core.Prelude.{
  ℕ, String, ◌≡◌, ◌≢◌, refl, ◌↔◌, inr, true, List, [], ◌∷◌, none, some, arith, Has, object_for_key,
  set_object, text_eq,
}
use connect_sdk_i_os_core.Manager.{Manager, ManagerEvent, found}
use connect_sdk_i_os_core.Manager.Search.{device_picker}
use connect_sdk_i_os_core.Manager.Discovery.Consistency.{IsConsistent}
use connect_sdk_i_os_core.Manager.Discovery.Finding.{IsReported}
use connect_sdk_i_os_core.Manager.Reports.{reports_found, reports_lost, handle_reports}
use connect_sdk_i_os_core.Picker.{
  Picker, ComparisonResult, same, new_picker, did_select, did_cancel, clicked_button,
  object_at_index, did_select_row, is_current, cleanup_views, dismiss_picker, hear, did_find_device,
  later_reload, sort_devices,
}
use connect_sdk_i_os_core.Picker.Mirror.{hear_all, IsMirrored}
use connect_sdk_i_os_core.Picker.Mirror.Watching.{
  watch_reports, watch_reports-IsMirrored, device_picker-IsMirrored,
}
use connect_sdk_i_os_core.Picker.Rows.{rows, IsKept, hears, perform, perform-IsKept}
use connect_sdk_i_os_core.Picker.Selection.{clicked_button_iff}
use connect_sdk_i_os_core.Tests.{dial_description}
use connect_sdk_i_os_core.Tests.Managers.{
  home, instantiate, home-IsConsistent, kitchen, kitchen-IsReported, objects,
}

abbrev watched : Manager
watched = record home { has_picker = true }

watched-IsConsistent : IsConsistent watched
watched-IsConsistent = record {
  served = home-IsConsistent.served;
  made = home-IsConsistent.made;
  exact = home-IsConsistent.exact;
}

watched-IsReported : IsReported watched kitchen none
watched-IsReported = record {
  a = kitchen-IsReported.a;
  k = kitchen-IsReported.k;
  service_class = kitchen-IsReported.service_class;
  address_set = kitchen-IsReported.address_set;
  name_set = kitchen-IsReported.name_set;
  registered = kitchen-IsReported.registered;
  stored_idle = kitchen-IsReported.stored_idle;
}

-- The picker shows the one device, in the list and on an action sheet.
abbrev open_picker : Picker
open_picker = record {
  devices = ("10.0.0.2", 0) ∷ [];
  generated_device_list = some (0 ∷ []);
  action_sheet_device_list = some (0 ∷ []);
  sorts = 0;
  reloads = 0;
  rows_shown = some 1;
  cancel_button_index = some 1;
  current_device = none;
  show_service_label = true;
  selects = true;
  cancels = true;
}

open_picker-IsKept : IsKept open_picker
unfolding object_for_key
open_picker-IsKept = record { one_each = (refl, tt); settled = λ e r. refl; sheet = inr refl }

watch_reports-IsMirrored_example :
    (m' : Manager) × (events : List ManagerEvent) × (p' : Picker) × (handle_reports instantiate
        watched
        (reports_found kitchen none none 12 ∷ reports_lost dial_description ∷ [])
      ≡ some (m', events))
    × (watch_reports instantiate watched
          (reports_found kitchen none none 12 ∷ reports_lost dial_description ∷ [])
          open_picker
        ≡ some p')
    × IsMirrored p' m'
watch_reports-IsMirrored_example =
    watch_reports-IsMirrored instantiate watched
      (reports_found kitchen none none 12 ∷ reports_lost dial_description ∷ []) open_picker
      watched-IsConsistent (watched-IsReported, λ m' events e. (tt, λ m'' later f. tt)) refl
      (λ k. refl)

device_picker-IsMirrored_example :
    (p : Picker) × (hear_all home.objects (device_picker home).1 new_picker ≡ some p)
    × IsMirrored p (device_picker home).0
device_picker-IsMirrored_example =
    device_picker-IsMirrored home home-IsConsistent (unfold object_for_key in refl, tt) refl

-- The texts are all the same, and an array stays as it is.
abbrev alike : String → String → ComparisonResult
alike a b = same

abbrev unsorted : (ℕ → ℕ → ComparisonResult) → List ℕ → List ℕ
unsorted cmp rs = rs

-- The picker has heard of a device that has moved to its address.
abbrev moved : Picker
moved = record open_picker { devices = ("10.0.0.2", 3) ∷ []; sorts = 1; reloads = 1 }

hears_found :
    perform objects "Unnamed device" (λ t. t) alike unsorted (hears found 3) open_picker
    ≡ some (moved, [])
unfolding perform hear did_find_device later_reload sort_devices set_object text_eq
hears_found = refl

perform-IsKept_example : IsKept moved
perform-IsKept_example =
    perform-IsKept objects "Unnamed device" (λ t. t) alike unsorted (hears found 3) open_picker
      moved [] (λ cmp rs r. refl) open_picker-IsKept hears_found

clicked_button_iff_example :
    (clicked_button 0 open_picker ≢ none)
    × ((clicked_button 0 open_picker ≡ some (did_select (some 0) ∷ [])) ↔ (
        (object_at_index 0 (0 ∷ []) ≡ some 0)
        × Has 0 (rows open_picker)
        × (open_picker.selects ≡ true)))
clicked_button_iff_example = clicked_button_iff open_picker (0 ∷ []) 0 0 (refl, refl) (omega arith)

-- Who takes a device is told that the user cancelled, too.
cancelled_too :
    did_select_row objects 0 open_picker
    ≡ some (cleanup_views open_picker, did_select (some 0) ∷ did_cancel ∷ [])
unfolding did_select_row object_at_index is_current cleanup_views dismiss_picker
cancelled_too = refl
