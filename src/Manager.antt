-- ===== src/Manager.antt =====
-- Discovery/DiscoveryManager.m: the devices that are known on the network, those of them that pass
-- the capability filters, and what the delegate and the device picker are told.
-- Device objects are shared between the two dictionaries, the store and the client: a dictionary
-- holds references into `objects`. What the delegate, the picker, the store and the providers are
-- told is a list of events in the order of the calls. `none` is an exception of Foundation.
pub mod Services
pub mod Listing
pub mod Discovery
pub mod Search
pub mod Filtering
pub mod Reports
pub mod Registration
use connect_sdk_i_os_core.Prelude.{
  ℕ, suc, ◌+◌, String, Bool, true, false, not, ◌&&◌, ◌||◌, List, [], ◌∷◌, ◌++◌, Option, none, some,
  if◌then◌else◌, is_set, any, Dict, object_for, object_for_key, set_object, set_object?,
  remove_object, all_values, ◌==◌, ◌>>=◌,
}
use connect_sdk_i_os_core.Device.{Device, address, has_capabilities}

pub data Change : Type 0 where
  found lost updated : Change

pub data Listener : Type 0 where
  delegate picker : Listener

pub data Action : Type 0 where
  start stop pause resume : Action

pub data ManagerEvent : Type 0 where
  told : Listener → Change → ℕ → ManagerEvent
  store_update : ℕ → ManagerEvent
  disconnect_device : ℕ → ManagerEvent
  provider : Action → ℕ → ManagerEvent
  ssid_changed : ManagerEvent
  start_listening stop_listening : ManagerEvent

-- `objects` are the device objects, of which those from `fresh` on are not yet made. A filter is
-- its list of capabilities. `providers` are references to the discovery providers, and
-- `device_classes` the names of the service classes by service id.
pub record Manager : Type 0 where
  pub objects : ℕ → Device
  pub fresh : ℕ
  pub all_devices : Dict ℕ
  pub compatible_devices : Dict ℕ
  pub capability_filters : List (List String)
  pub device_classes : Dict String
  pub providers : List ℕ
  pub use_device_store : Bool
  pub has_delegate : Bool
  pub has_picker : Bool
  pub current_ssid : Option String
  pub searching : Bool
  pub should_resume_search : Bool
  pub ssid_timer : Bool

abbrev pub update_at : (ℕ → Device) → ℕ → Device → ℕ → Device
update_at objects r d x = if x == r then d else objects x

abbrev pub put : Manager → ℕ → Device → Manager
put m r d = record m { objects = update_at m.objects r d }

-- A message to the delegate, if there is one.
unfoldable pub to_delegate : Manager → Change → ℕ → List ManagerEvent
to_delegate m change r = if m.has_delegate then told delegate change r ∷ [] else []

unfoldable pub to_picker : Manager → Change → ℕ → List ManagerEvent
to_picker m change r = if m.has_picker then told picker change r ∷ [] else []

unfoldable pub notify : Manager → Change → ℕ → List ManagerEvent
notify m change r = to_delegate m change r ++ to_picker m change r

-- The filters are nil or empty, or one of them asks only for what the device has.
unfoldable pub device_is_compatible : List (List String) → Device → Bool
device_is_compatible [] device = true
device_is_compatible (f ∷ fs) device = any (has_capabilities device) (f ∷ fs)

abbrev pub is_compatible : Manager → ℕ → Bool
is_compatible m r = device_is_compatible m.capability_filters (m.objects r)

abbrev pub Outcome : Type 0
Outcome = Option (Manager × List ManagerEvent)

-- `setValue:forKey:` under the address of the device.
unfoldable pub list_device : Manager → ℕ → Outcome
list_device m r = do
  compatible ← set_object? (address (m.objects r)) r m.compatible_devices
  some (record m { compatible_devices = compatible }, notify m found r)

unfoldable pub handle_device_add : Manager → ℕ → Outcome
handle_device_add m r = if not (is_compatible m r) then some (m, []) else list_device m r

unfoldable pub handle_device_loss : Manager → ℕ → List ManagerEvent
handle_device_loss m r = notify m lost r

-- `removeObjectForKey:` raises on a nil key.
abbrev pub remove_object? {ℓ} : {V : Type ℓ} → Option String → Dict V → Option (Dict V)
remove_object? none d = none
remove_object? (some k) d = some (remove_object k d)

unfoldable pub unlist_device : Manager → ℕ → Outcome
unlist_device m r = do
  compatible ← remove_object? (address (m.objects r)) m.compatible_devices
  some (record m { compatible_devices = compatible }, store_update r ∷ handle_device_loss m r)

unfoldable pub add_updated : Manager → ℕ → Outcome
add_updated m r = do (m', events) ← handle_device_add m r; some (m', store_update r ∷ events)

unfoldable pub handle_device_update : Manager → ℕ → Outcome
handle_device_update m r =
    if is_compatible m r
    then (if is_set (object_for (address (m.objects r)) m.compatible_devices)
        then some (m, store_update r ∷ notify m updated r)
        else add_updated m r)
    else unlist_device m r
