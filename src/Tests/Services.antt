-- ===== src/Tests/Services.antt =====
-- Services/DeviceService.m and Devices/ConnectableDevice.m at work.
use connect_sdk_i_os_core.Prelude.{
  ◌≤◌, String, ◌≡◌, refl, ◌⊎◌, true, List, [], ◌∷◌, some, object_for_key, range_of_string, any,
  substring_to_index, text_eq,
}
use connect_sdk_i_os_core.Service.{
  DeviceService, Notice, ControlKind, listens, set_capabilities, add_capability, remove_capability,
  add_capabilities, remove_loop, remove_text, remove_while,
}
use connect_sdk_i_os_core.Service
use connect_sdk_i_os_core.Service.Changes.{Diff, set_capabilities-Diff}
use connect_sdk_i_os_core.Device.{Device, DeviceEvent, add_service}
use connect_sdk_i_os_core.Device.Filing.{IsFiled, Adds, IsNewer, add_service_lem}
use connect_sdk_i_os_core.Tests.{tv, tv_description, living_room}

abbrev own : List String
own = "Launcher.App" ∷ "Launcher.App.Params" ∷ []

any_matches : Service.has_capability own "Launcher.Any" ≡ true
unfolding Service.has_capability range_of_string any substring_to_index
any_matches = refl

set_capabilities-Diff_example :
    (n : Notice) × ((set_capabilities tv ("Launcher.Apps" ∷ [])).1 ≡ n ∷ [])
    × ((set_capabilities tv ("Launcher.Apps" ∷ [])).0.capabilities ≡ "Launcher.Apps" ∷ [])
    × Diff own ("Launcher.Apps" ∷ []) n
set_capabilities-Diff_example = set_capabilities-Diff tv ("Launcher.Apps" ∷ []) refl

pub living_room-IsFiled : IsFiled living_room
unfolding text_eq object_for_key
living_room-IsFiled = record { keys = (refl, (refl, tt)); named = (refl, (refl, tt)) }

abbrev newer : DeviceService
newer = record tv { description = record tv_description { last_detection = 9 } }

add_service_lem_example :
    (d' : Device) × (events : List DeviceEvent) × (add_service living_room newer
      ≡ some (d', events))
    × IsFiled d'
    × (((existing : DeviceService) × (object_for_key "webOS TV" living_room.services
            ≡ some existing)
          × (9 ≤ existing.description.last_detection)
          × (d' ≡ living_room)
          × (events ≡ []))
        ⊎ (IsNewer newer (object_for_key "webOS TV" living_room.services)
            × Adds living_room newer "webOS TV" d'))
add_service_lem_example = add_service_lem living_room newer "webOS TV" refl living_room-IsFiled
