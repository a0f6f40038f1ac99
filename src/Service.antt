-- ===== src/Service.antt =====
-- Services/DeviceService.m: the base class of all services: its capability list, the queries on
-- it and the notices to the delegate.
pub mod Queries
pub mod Changes
pub mod Contract
use connect_sdk_i_os_core.Prelude.{
  ℕ, zero, suc, String, ◌≡◌, Bool, true, false, not, ◌&&◌, ◌||◌, List, [], ◌∷◌, ◌++◌, Option, none,
  some, if◌then◌else◌, is_set, any, all, select, codes, range_of_string, substring_to_index,
  contains_object, text_eq, length,
}
use connect_sdk_i_os_core.Description.{ServiceDescription}

-- `hasCapability:`. A capability with `.Any` in it matches each item in which the part before
-- the marker occurs.
unfoldable pub has_capability : List String → String → Bool
has_capability capabilities capability = elim (range_of_string (codes ".Any") (codes capability)) [
  | none ↦ contains_object capability capabilities
  | some location ↦
      any
        (λ item.
          is_set (range_of_string (substring_to_index location (codes capability)) (codes item)))
        capabilities
]

unfoldable pub has_capabilities : List String → List String → Bool
has_capabilities own wanted = all (has_capability own) wanted

unfoldable pub has_any_capability : List String → List String → Bool
has_any_capability own wanted = any (has_capability own) wanted

-- `deviceService:capabilitiesAdded:removed:`, as the delegate receives it.
pub record Notice : Type 0 where
  pub added : List String
  pub removed : List String

-- The control interfaces, as `respondsToSelector:` tells them apart.
pub data ControlKind : Type 0 where
  launcher external_input_control media_player media_control volume_control tv_control : ControlKind
  key_control text_input_control mouse_control power_control toast_control : ControlKind
  web_app_launcher screen_mirroring_control remote_camera_control : ControlKind

-- The object that a service offers for an interface, with the priority that it answers.
pub record Control : Type 0 where
  pub object : ℕ
  pub priority : ℕ

-- The state of a service. `delegate` is whether a set delegate responds to the notice;
-- `connectable` is what the class answers to `isConnectable`; `controls` answers `none` where the
-- class does not respond to the selector, or responds with nil.
pub record DeviceService : Type 0 where
  pub service_class : String
  pub description : ServiceDescription
  pub config_uuid : Option String
  pub capabilities : List String
  pub connectable : Bool
  pub connected : Bool
  pub delegate : Option Bool
  pub controls : ControlKind → Option Control

-- `serviceName`.
abbrev pub service_name : DeviceService → Option String
service_name s = s.description.service_id

abbrev pub listens : DeviceService → Bool
listens s = elim s.delegate [ none ↦ false | some responds ↦ responds ]

notify : DeviceService → Notice → List Notice
notify s n = if listens s then n ∷ [] else []

-- The elements of the first list that the second does not have.
unfoldable pub without : List String → List String → List String
without xs ys = select (λ c. not (contains_object c ys)) xs

unfoldable pub set_capabilities : DeviceService → List String → DeviceService × List Notice
unfolding notify
set_capabilities s new = (
  record s { capabilities = new },
  notify s (record { added = without new s.capabilities; removed = without s.capabilities new }),
)

-- The guards of `addCapability:` and of `addCapabilities:`, for one capability.
unfoldable pub accept : List String → String → List String
accept own capability =
    if text_eq capability ""
    then own
    else if has_capability own capability
    then own
    else own ++ capability ∷ []

unfoldable pub add_capability : DeviceService → String → DeviceService × List Notice
unfolding notify
add_capability s capability =
    if text_eq capability ""
    then (s, [])
    else if has_capability s.capabilities capability
    then (s, [])
    else (
      record s { capabilities = s.capabilities ++ capability ∷ [] },
      notify s (record { added = capability ∷ []; removed = [] }),
    )

unfoldable pub accept_all : List String → List String → List String
accept_all own [] = own
accept_all own (c ∷ cs) = accept_all (accept own c) cs

unfoldable pub add_capabilities : DeviceService → List String → DeviceService × List Notice
unfolding notify accept_all
add_capabilities s capabilities = (
  record s { capabilities = accept_all s.capabilities capabilities },
  notify s (record { added = capabilities; removed = [] }),
)

-- `removeObject:`: takes every equal element out.
unfoldable pub remove_text : String → List String → List String
remove_text c xs = select (λ x. not (text_eq x c)) xs

-- `do { remove } while (contains)`, on fuel; `none` is fuel that ran out.
unfoldable pub remove_while : ℕ → String → List String → Option (List String)
remove_while zero c xs = none
remove_while (suc fuel) c xs =
    let next = remove_text c xs in
    let rest = remove_while fuel c next in if contains_object c next then rest else some next

-- The loop with fuel for every element.
unfoldable pub remove_loop : String → List String → List String
remove_loop c xs = elim (remove_while (suc (length xs)) c xs) [ none ↦ xs | some ys ↦ ys ]

unfoldable pub discard : List String → String → List String
discard own capability =
    if text_eq capability ""
    then own
    else if not (has_capability own capability)
    then own
    else remove_loop capability own

unfoldable pub remove_capability : DeviceService → String → DeviceService × List Notice
unfolding notify
remove_capability s capability =
    if text_eq capability ""
    then (s, [])
    else if not (has_capability s.capabilities capability)
    then (s, [])
    else (
      record s { capabilities = remove_loop capability s.capabilities },
      notify s (record { added = []; removed = capability ∷ [] }),
    )

unfoldable pub discard_all : List String → List String → List String
discard_all own [] = own
discard_all own (c ∷ cs) = discard_all (discard own c) cs

unfoldable pub remove_capabilities : DeviceService → List String → DeviceService × List Notice
unfolding notify discard_all
remove_capabilities s capabilities = (
  record s { capabilities = discard_all s.capabilities capabilities },
  notify s (record { added = []; removed = capabilities }),
)
