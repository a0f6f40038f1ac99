-- ===== src/Manager/Search.antt =====
-- Discovery/DiscoveryManager.m: starting and stopping the search, the reactions to the application
-- going to the background and coming back, and the change of the wireless network.
pub mod Providers
use connect_sdk_i_os_core.Prelude.{
  ℕ, String, Bool, true, false, not, ◌&&◌, List, [], ◌∷◌, ◌++◌, map, Option, none, some,
  if◌then◌else◌, all_values, length, ◌==◌, Dict,
}
use connect_sdk_i_os_core.Manager.{
  Manager, ManagerEvent, Action, start, stop, pause, resume, provider, start_listening,
  stop_listening, disconnect_device, ssid_changed, told, found, lost, picker, to_delegate,
  to_picker,
}

-- An action on each provider.
unfoldable pub each_provider : Action → List ℕ → List ManagerEvent
each_provider action ps = map (provider action) ps

-- `registerDefaultServices` takes its platforms from a file that the application provides.
module _ (register_default_services : Manager → Manager) where
  unfoldable pub start_discovery : Manager → Manager × List ManagerEvent
  start_discovery m =
      if m.searching
      then (m, [])
      else (let m' = if length m.device_classes == 0 then register_default_services m else m in
          (
            record m' { searching = true },
            each_provider start m'.providers ++ start_listening ∷ [],
          ))

unfoldable pub stop_discovery : Manager → Manager × List ManagerEvent
stop_discovery m = if not m.searching then (m, []) else (
  record m { searching = false },
  each_provider stop m.providers
      ++ (if not m.should_resume_search then stop_listening ∷ [] else []),
)

unfoldable pub pause_discovery : Manager → Manager × List ManagerEvent
pause_discovery m =
    if m.searching
    then (
      record m { ssid_timer = false; searching = false; should_resume_search = true },
      each_provider pause m.providers,
    )
    else (record m { ssid_timer = false }, [])

unfoldable pub resume_discovery : Manager → Manager × List ManagerEvent
resume_discovery m =
    if m.should_resume_search
    then (
      record m { ssid_timer = true; searching = true; should_resume_search = false },
      each_provider resume m.providers,
    )
    else (record m { ssid_timer = true }, [])

-- `devicePicker` makes the picker at its first use and tells it of the compatible devices.
unfoldable pub device_picker : Manager → Manager × List ManagerEvent
device_picker m =
    if m.has_picker
    then (m, [])
    else (record m { has_picker = true }, map (told picker found) (all_values m.compatible_devices))

-- The enumeration of `purgeDeviceList`, which asks for the picker in each round.
unfoldable pub lose_each : Manager → List ℕ → Manager × List ManagerEvent
lose_each m [] = (m, [])
lose_each m (r ∷ rs) =
    let (m', shown) = device_picker m in
    let (m'', events) = lose_each m' rs in
    (
      m'',
      disconnect_device r ∷ (to_delegate m lost r ++ (shown ++ (to_picker m' lost r ++ events))),
    )

unfoldable pub restart_each : List ℕ → List ManagerEvent
restart_each [] = []
restart_each (p ∷ ps) = provider stop p ∷ provider start p ∷ restart_each ps

unfoldable pub purge_device_list : Manager → Manager × List ManagerEvent
purge_device_list m =
    let (m', events) = lose_each m (all_values m.compatible_devices) in
    (record m' { all_devices = []; compatible_devices = [] }, events ++ restart_each m'.providers)

-- `ssid` is the name of the wireless network, if the system has one. `same_ssid` is what the
-- comparison of Foundation, which ignores case, answers of it and the current name.
unfoldable pub detect_ssid_change :
    (String → Option String → Bool) → Manager → Option String → Manager × List ManagerEvent
detect_ssid_change same_ssid m ssid =
    let name : String = elim ssid [ none ↦ "" | some s ↦ s ] in
    if same_ssid name m.current_ssid then (m, []) else (elim m.current_ssid [
      | none ↦ (record m { current_ssid = some name }, [])
      | some _ ↦
          (let (m', events) = purge_device_list m in
            (record m' { current_ssid = some name }, events ++ ssid_changed ∷ []))
    ])
