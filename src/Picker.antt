-- ===== src/Picker.antt =====
-- Devices/DevicePicker.m: the list of devices that the user picks from.
-- Devices are references into the objects that the manager holds. Blocks wait on the sort queue and
-- on the main queue: their numbers stand for them. Rotation and the placing of the views are left
-- out. `none` is an exception of Foundation.
pub mod Mirror
pub mod Rows
pub mod Selection
use connect_sdk_i_os_core.Prelude.{
  ℕ, zero, suc, ◌-◌, String, Bool, true, false, not, ◌&&◌, List, [], ◌∷◌, ◌++◌, Option, none, some,
  if◌then◌else◌, is_set, any, map, Dict, set_object?, all_values, length, codes, substring_to_index,
  is_equal_to_string, text_eq, ◌==◌, ◌>>=◌,
}
use connect_sdk_i_os_core.Service.{DeviceService}
use connect_sdk_i_os_core.Device.{Device, address}
use connect_sdk_i_os_core.Manager.{Change, found, lost, updated, remove_object?}

-- NSComparisonResult.
pub data ComparisonResult : Type 0 where
  ascending same descending : ComparisonResult

-- What the delegate is told.
pub data PickerEvent : Type 0 where
  did_select : Option ℕ → PickerEvent
  did_cancel : PickerEvent

-- `rows_shown` is how many rows the table view has, if there is one, and `cancel_button_index` the
-- index of the last button, if there is an action sheet. `selects` and `cancels` are whether there
-- is a delegate that responds to the method.
pub record Picker : Type 0 where
  pub devices : Dict ℕ
  pub generated_device_list : Option (List ℕ)
  pub action_sheet_device_list : Option (List ℕ)
  pub sorts : ℕ
  pub reloads : ℕ
  pub rows_shown : Option ℕ
  pub cancel_button_index : Option ℕ
  pub current_device : Option ℕ
  pub show_service_label : Bool
  pub selects : Bool
  pub cancels : Bool

unfoldable pub new_picker : Picker
new_picker = record {
  devices = [];
  generated_device_list = none;
  action_sheet_device_list = none;
  sorts = 0;
  reloads = 0;
  rows_shown = none;
  cancel_button_index = none;
  current_device = none;
  show_service_label = false;
  selects = false;
  cancels = false;
}

abbrev pub rows_of : Option (List ℕ) → ℕ
rows_of none = 0
rows_of (some rs) = length rs

unfoldable pub number_of_rows : Picker → ℕ
number_of_rows p = rows_of p.generated_device_list

-- `reloadData`: the table view asks again, if there is one.
unfoldable pub reload_table : Picker → Picker
reload_table p =
    if is_set p.rows_shown then record p { rows_shown = some (number_of_rows p) } else p

unfoldable pub set_current_device : Option ℕ → Picker → Picker
set_current_device r p = reload_table (record p { current_device = r })

unfoldable pub cleanup_views : Picker → Picker
cleanup_views p = record p {
  rows_shown = none;
  cancel_button_index = none;
  action_sheet_device_list = none;
}

-- `sortDevices`: a block for the sort queue.
unfoldable pub sort_devices : Picker → Picker
sort_devices p = record p { sorts = suc p.sorts }

unfoldable pub later_reload : Picker → Picker
later_reload p = record p { reloads = suc p.reloads }

-- `showPicker:`. On a tablet a sender that is no view has the views cleaned up again, `presented`.
unfoldable pub show_picker : ℕ → Bool → Picker → Picker
show_picker filters presented p =
    let p' = sort_devices p in
    let shown = record p' {
      show_service_label = filters == 0;
      rows_shown = some (number_of_rows p);
    } in
    if presented then shown else cleanup_views shown

-- `showActionSheet:`: a button for each device, and the last to cancel.
unfoldable pub show_action_sheet : Picker → Picker
show_action_sheet p = record p {
  action_sheet_device_list = p.generated_device_list;
  cancel_button_index = some (rows_of p.generated_device_list);
}

abbrev pub tell_cancel : Picker → List PickerEvent
tell_cancel p = if p.cancels then did_cancel ∷ [] else []

abbrev pub tell_select : Picker → Option ℕ → List PickerEvent
tell_select p r = if p.selects then did_select r ∷ [] else []

-- The sheet, the popover or the full screen goes, and the delegate is told.
unfoldable pub dismiss_picker : Picker → Picker × List PickerEvent
dismiss_picker p = (cleanup_views p, tell_cancel p)

unfoldable pub popover_did_dismiss : Picker → Picker × List PickerEvent
popover_did_dismiss p = (cleanup_views p, tell_cancel p)

unfoldable pub action_sheet_did_dismiss : Picker → Picker
action_sheet_did_dismiss p = cleanup_views p

unfoldable pub action_sheet_cancel : Picker → Picker × List PickerEvent
action_sheet_cancel p = dismiss_picker p

-- `objectAtIndex:`, which raises an exception out of range.
unfoldable pub object_at_index : ℕ → List ℕ → Option ℕ
object_at_index i [] = none
object_at_index zero (r ∷ rs) = some r
object_at_index (suc i) (r ∷ rs) = object_at_index i rs

-- The same message to an array that may be nil.
abbrev pub object_at_index_of : ℕ → Option (List ℕ) → Option (Option ℕ)
object_at_index_of i none = some none
object_at_index_of i (some rs) = do r ← object_at_index i rs; some (some r)

-- Devices are equal as objects.
unfoldable pub contains_device : Option ℕ → Option (List ℕ) → Bool
contains_device none rs = false
contains_device (some r) none = false
contains_device (some r) (some rs) = any (λ x. x == r) rs

abbrev pub is_index : ℕ → Option ℕ → Bool
is_index i none = false
is_index i (some j) = i == j

-- `actionSheet:clickedButtonAtIndex:`, of a sheet that is there.
unfoldable pub clicked_button : ℕ → Picker → Option (List PickerEvent)
clicked_button i p = if is_index i p.cancel_button_index then some [] else do
  r ← object_at_index_of i p.action_sheet_device_list
  some (if contains_device r p.generated_device_list then tell_select p r else [])

-- The places of the sort queue and the main queue, where the waiting blocks run.
unfoldable pub run_reload : Picker → Picker
run_reload p = reload_table (record p { reloads = p.reloads - 1 })

-- The operations below read the device objects.
module _ (objects : ℕ → Device) where
  abbrev pub address_of : Option ℕ → Option String
  address_of none = none
  address_of (some r) = (objects r).description.address

  -- The device is the one that the client has marked.
  unfoldable pub is_current : Picker → Option ℕ → Bool
  is_current p r = is_equal_to_string (address_of p.current_device) (address_of r)

  abbrev pub selected : Picker → Option ℕ → Picker × List PickerEvent
  selected p r =
      let (p', events) = dismiss_picker p in
      if is_current p r then (p, []) else (p', tell_select p r ++ events)

  unfoldable pub did_select_row : ℕ → Picker → Option (Picker × List PickerEvent)
  did_select_row i p = do r ← object_at_index_of i p.generated_device_list; some (selected p r)

  unfoldable pub did_find_device : ℕ → Picker → Option Picker
  did_find_device r p = do
    devices ← set_object? (address (objects r)) r p.devices
    some (later_reload (sort_devices (record p { devices = devices })))

  unfoldable pub did_lose_device : ℕ → Picker → Option Picker
  did_lose_device r p = do
    devices ← remove_object? (address (objects r)) p.devices
    some (later_reload (sort_devices (record p { devices = devices })))

  unfoldable pub did_update_device : ℕ → Picker → Option Picker
  did_update_device r p = some (later_reload p)

  -- The methods of DiscoveryManagerDelegate.
  unfoldable pub hear : Change → ℕ → Picker → Option Picker
  hear found = did_find_device
  hear lost = did_lose_device
  hear updated = did_update_device

  -- The text of the bundle for a device with neither a name nor an address; the order of
  -- `compare:` on texts in lower case, and the sort of NSArray by a comparator.
  module _ (unnamed : String) where
    abbrev pub text_of : Option String → Option String
    text_of none = none
    text_of (some t) = if text_eq t "" then none else some t

    abbrev pub first_text : Option String → Option String → String
    first_text none none = unnamed
    first_text none (some t) = t
    first_text (some t) o = t

    unfoldable pub name_for_device : ℕ → String
    name_for_device r =
        first_text (text_of (objects r).description.friendly_name)
          (text_of (objects r).description.address)

    module _ (lowercase : String → String) (compare : String → String → ComparisonResult) where
      unfoldable pub compare_names : ℕ → ℕ → ComparisonResult
      compare_names r s = compare (lowercase (name_for_device r)) (lowercase (name_for_device s))

      -- A block of the sort queue.
      unfoldable pub run_sort : ((ℕ → ℕ → ComparisonResult) → List ℕ → List ℕ) → Picker → Picker
      run_sort sorted_array p = record p {
        sorts = p.sorts - 1;
        generated_device_list = some (sorted_array compare_names (all_values p.devices));
      }
