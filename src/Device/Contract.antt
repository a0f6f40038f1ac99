-- ===== src/Device/Contract.antt =====
-- Devices/ConnectableDevice.h: the questions to a device, and how Devices/ConnectableDevice.m answers
-- them.
use connect_sdk_i_os_core.Prelude.{
  object_for_key, IsDict, String, ◌≡◌, ◌∙◌, ◌≢◌, sym, ap, subst, refl, ◌↔◌, inl, inr, Bool, true,
  false, List, [], ◌∷◌, Option, none, some, Has, Distinct, Dict, all_values, any, any_of,
  any_witness, all_iff, find_first, ◌>>=◌, some_injective, length, ltb, text_eq, text_eq_iff,
  Bool-cases, AllEntries, arith,
}
use connect_sdk_i_os_core.Service.{DeviceService, Control, ControlKind, service_name}
use connect_sdk_i_os_core.Service
use connect_sdk_i_os_core.Device.{
  Device, services, has_services, connected, is_connectable, capabilities, has_capability,
  has_capabilities, has_any_capability, service_with_name,
}
use connect_sdk_i_os_core.Service.Contract.{HasMatch, has_capability_iff}
use connect_sdk_i_os_core.Device.Capabilities.{Offered, capabilities-Union}
use connect_sdk_i_os_core.Device.Connection.{IsUp, connected_iff}
use connect_sdk_i_os_core.Device.Filing.{IsFiled, Named}
use connect_sdk_i_os_core.Device.Selection.{IsBest, offers, select_control, select_control-IsBest}

-- The questions of the header about connection, services, capabilities and controls.
pub data DeviceQuery : Type 0 where
  wants_is_connectable wants_connected wants_services wants_has_services : DeviceQuery
  wants_capabilities : DeviceQuery
  wants_service_with_name : String → DeviceQuery
  wants_capability : String → DeviceQuery
  wants_all_capabilities wants_any_capability : List String → DeviceQuery
  wants_control : ControlKind → DeviceQuery

abbrev pub DeviceAnswer : DeviceQuery → Type 0
DeviceAnswer wants_is_connectable = Bool
DeviceAnswer wants_connected = Bool
DeviceAnswer wants_services = List DeviceService
DeviceAnswer wants_has_services = Bool
DeviceAnswer wants_capabilities = List String
DeviceAnswer (wants_service_with_name name) = Option DeviceService
DeviceAnswer (wants_capability c) = Bool
DeviceAnswer (wants_all_capabilities cs) = Bool
DeviceAnswer (wants_any_capability cs) = Bool
DeviceAnswer (wants_control kind) = Option Control

-- The answers of the class.
unfoldable pub ask : (d : Device) (q : DeviceQuery) → DeviceAnswer q
ask d wants_is_connectable = is_connectable d
ask d wants_connected = connected d
ask d wants_services = services d
ask d wants_has_services = has_services d
ask d wants_capabilities = capabilities d
ask d (wants_service_with_name name) = service_with_name d name
ask d (wants_capability c) = has_capability d c
ask d (wants_all_capabilities cs) = has_capabilities d cs
ask d (wants_any_capability cs) = has_any_capability d cs
ask d (wants_control kind) = select_control d kind

-- A capability of some service matches the term: it is the term, or, for a term with the marker
-- `.Any`, the part before the marker stands somewhere in it.
abbrev pub Lists : Device → String → Type 0
Lists d c = (s : DeviceService) × Has s (services d) × HasMatch s.capabilities c

-- A service of the name, or nil where there is none.
abbrev pub IsNamed : List DeviceService → String → Option DeviceService → Type 0
IsNamed ss name none = (s : DeviceService) → Has s ss → service_name s ≡ some name → ⊥
IsNamed ss name (some s) = Has s ss × (service_name s ≡ some name)

-- What is the answer to each question.
abbrev pub IsAnswer : (d : Device) (q : DeviceQuery) → DeviceAnswer q → Type 0
IsAnswer d wants_is_connectable a =
    (a ≡ true) ↔ ((s : DeviceService) × Has s (services d) × (s.connectable ≡ true))
IsAnswer d wants_connected a = (a ≡ true) ↔ ((s : DeviceService) → Has s (services d) → IsUp s)
IsAnswer d wants_services a =
    (s : DeviceService) → Has s a ↔ ((name : String) × (object_for_key name d.services ≡ some s))
IsAnswer d wants_has_services a = (a ≡ true) ↔ ((s : DeviceService) × Has s (services d))
IsAnswer d wants_capabilities a = ((c : String) → Has c a ↔ Offered c (services d)) × Distinct a
IsAnswer d (wants_service_with_name name) a = IsNamed (services d) name a
IsAnswer d (wants_capability c) a = (a ≡ true) ↔ Lists d c
IsAnswer d (wants_all_capabilities cs) a = (a ≡ true) ↔ ((c : String) → Has c cs → Lists d c)
IsAnswer d (wants_any_capability cs) a = (a ≡ true) ↔ ((c : String) × Has c cs × Lists d c)
IsAnswer d (wants_control kind) a = IsBest (offers d kind) a

is_connectable_iff :
    (d : Device)
    → (is_connectable d ≡ true)
      ↔ ((s : DeviceService) × Has s (services d) × (s.connectable ≡ true))
unfolding is_connectable
is_connectable_iff d = (
  λ t. any_witness (λ s. s.connectable) (services d) t,
  λ (s, m, e). any_of (λ s. s.connectable) (services d) s m e,
)

abbrev Filed : Dict DeviceService → DeviceService → Type 0
Filed ds s = (name : String) × (object_for_key name ds ≡ some s)

values_more :
    (k : String) (x : DeviceService) (ds : Dict DeviceService) (s : DeviceService)
    → object_for_key k ds ≡ none
    → Has s (all_values ds) ↔ Filed ds s
    → Has s (all_values ((k, x) ∷ ds)) ↔ Filed ((k, x) ∷ ds) s
unfolding object_for_key
values_more k x ds s absent (into, out) = (there, back)
  where
    later : Filed ds s → Filed ((k, x) ∷ ds) s
    later (name, e) = elim (Bool-cases (text_eq k name)) [
      | inl t ↦ cc (absent, ap (λ j. object_for_key j ds) ((text_eq_iff k name).0 t), e)
      | inr t ↦ (name, rw t e)
    ]

    there : Has s (all_values ((k, x) ∷ ds)) → Filed ((k, x) ∷ ds) s
    there (inl e) = (k, rw ((text_eq_iff k k).1 refl) (ap some e))
    there (inr m) = later (into m)

    back : Filed ((k, x) ∷ ds) s → Has s (all_values ((k, x) ∷ ds))
    back (name, e) = elim (Bool-cases (text_eq k name)) [
      | inl t ↦ inl (some_injective (rw t at e))
      | inr t ↦ inr (out (name, rw t at e))
    ]

-- The values of a dictionary are what its keys lead to.
values_iff :
    (ds : Dict DeviceService) → IsDict ds → (s : DeviceService) → Has s (all_values ds) ↔ Filed ds s
values_iff [] h s = (λ m. absurd m, λ (name, e). unfold object_for_key in cc)
values_iff ((k, x) ∷ ds) (absent, h) s = values_more k x ds s absent (values_iff ds h s)

nonempty_iff :
    (ds : Dict DeviceService)
    → (ltb 0 (length ds) ≡ true) ↔ ((s : DeviceService) × Has s (all_values ds))
nonempty_iff [] = (λ t. ground arith, λ (s, m). absurd m)
nonempty_iff (e ∷ ds) = (λ t. (e.1, inl refl), λ m. ground arith)

has_capability-Lists : (d : Device) (c : String) → (has_capability d c ≡ true) ↔ Lists d c
unfolding has_capability
has_capability-Lists d c = (
  λ t.
      let (s, m, e) = any_witness (λ s. Service.has_capability s.capabilities c) (services d) t in
      (s, m, (has_capability_iff s.capabilities c).0 e),
  λ (s, m, h).
      any_of (λ s. Service.has_capability s.capabilities c) (services d) s m
        ((has_capability_iff s.capabilities c).1 h),
)

has_any_capability_iff :
    (d : Device) (cs : List String)
    → (has_any_capability d cs ≡ true) ↔ ((c : String) × Has c cs × Lists d c)
unfolding has_any_capability Service.has_any_capability
has_any_capability_iff d cs = (
  λ t.
      let (s, m, e) =
        any_witness (λ s. any (Service.has_capability s.capabilities) cs) (services d) t in
      let (c, n, f) = any_witness (Service.has_capability s.capabilities) cs e in
      (c, n, (s, m, (has_capability_iff s.capabilities c).0 f)),
  λ (c, n, (s, m, h)).
      let e = (has_capability_iff s.capabilities c).1 h in
      any_of (λ s. any (Service.has_capability s.capabilities) cs) (services d) s m
        (any_of (Service.has_capability s.capabilities) cs c n e),
)

pub has_capabilities_iff :
    (d : Device) (cs : List String)
    → (has_capabilities d cs ≡ true) ↔ ((c : String) → Has c cs → Lists d c)
unfolding has_capabilities
has_capabilities_iff d cs = (
  λ t c m. (has_capability-Lists d c).0 ((all_iff (has_capability d) cs).0 t c m),
  λ h. (all_iff (has_capability d) cs).1 (λ c m. (has_capability-Lists d c).1 (h c m)),
)

IsNamed-behind :
    (x : DeviceService) (ss : List DeviceService) (name : String) (o : Option DeviceService)
    → service_name x ≢ some name
    → IsNamed ss name o
    → IsNamed (x ∷ ss) name o
IsNamed-behind x ss name none n h = λ s m e. elim m [
  | inl i ↦ n (subst (λ y. service_name y ≡ some name) (sym i) e)
  | inr k ↦ h s k e
]
IsNamed-behind x ss name (some s) n (m, e) = (inr m, e)

find_first-IsNamed :
    (name : String) (ds : Dict DeviceService)
    → AllEntries Named ds
    → IsNamed (all_values ds) name (find_first (λ e. text_eq e.0 name) ds >>= λ e. some e.1)
unfolding find_first
find_first-IsNamed name [] h = λ s m e. m
find_first-IsNamed name ((k, x) ∷ ds) (own, h) = elim (Bool-cases (text_eq k name)) [
  | inl t ↦ rw t (inl refl, own ∙ ap some ((text_eq_iff k name).0 t))
  | inr t ↦ rw t (
      IsNamed-behind x (all_values ds) name _ (λ e. not_the_name (some_injective (sym own ∙ e)) t)
        (find_first-IsNamed name ds h))
]
  where
    not_the_name : k ≡ name → text_eq k name ≡ false → ⊥
    not_the_name i t = cc ((text_eq_iff k name).1 i)

service_with_name-IsNamed :
    (d : Device) (name : String) → IsFiled d → IsNamed (services d) name (service_with_name d name)
unfolding service_with_name
service_with_name-IsNamed d name h = find_first-IsNamed name d.services h.named

-- Each question of the header is answered as its comment says, on a device whose services are filed
-- by name; but a term with the marker `.Any` matches a capability in which the part before the marker
-- stands anywhere, not only at its start.
pub ask-IsAnswer : (d : Device) (q : DeviceQuery) → IsFiled d → IsAnswer d q (ask d q)
unfolding ask has_services
ask-IsAnswer d wants_is_connectable h = is_connectable_iff d
ask-IsAnswer d wants_connected h = connected_iff d
ask-IsAnswer d wants_services h = values_iff d.services h.keys
ask-IsAnswer d wants_has_services h = nonempty_iff d.services
ask-IsAnswer d wants_capabilities h = capabilities-Union d
ask-IsAnswer d (wants_service_with_name name) h = service_with_name-IsNamed d name h
ask-IsAnswer d (wants_capability c) h = has_capability-Lists d c
ask-IsAnswer d (wants_all_capabilities cs) h = has_capabilities_iff d cs
ask-IsAnswer d (wants_any_capability cs) h = has_any_capability_iff d cs
ask-IsAnswer d (wants_control kind) h = select_control-IsBest d kind
