-- ===== src/Device/Delegate.antt =====
-- Devices/ConnectableDevice.m: `setDelegate:`, which asks for the connections that are missing, and
-- `connectedServiceNames`. A text of names is its list of codes.
use mathlib.Core.List.{append_assoc}
use connect_sdk_i_os_core.Prelude.{
  ℕ, ◌-◌, String, ◌≡◌, ◌∙◌, sym, ap, refl, subst, ◌↔◌, inl, inr, Bool, true, false, not, ◌&&◌, List,
  [], ◌∷◌, ◌++◌, Option, none, some, if◌then◌else◌, Has, Dict, Bool-cases, codes, length,
  length-append, all_values, substring_to_index, arith, ◌==◌,
}
use connect_sdk_i_os_core.Service.{DeviceService, service_name}
use connect_sdk_i_os_core.Device.{
  Device, DeviceDelegate, DeviceEvent, connection_required, services,
}

abbrev pub lacks_connection : DeviceService → Bool
lacks_connection s = s.connectable && not s.connected

unfoldable pub require_connections : List DeviceService → List DeviceEvent
require_connections [] = []
require_connections (s ∷ ss) =
    let rest = require_connections ss in
    if lacks_connection s then connection_required (service_name s) ∷ rest else rest

unfoldable pub set_delegate : Option DeviceDelegate → Device → Device × List DeviceEvent
set_delegate none d = (record d { delegate = none }, [])
set_delegate (some g) d = (
  record d { delegate = some g },
  if g.on_connection_required then require_connections (services d) else [],
)

-- A service of the list that could be connected and is not.
abbrev pub IsMissing : List DeviceService → DeviceEvent → Type 0
IsMissing ss e =
    (s : DeviceService) × Has s ss
    × (lacks_connection s ≡ true)
    × (e ≡ connection_required (service_name s))

missing :
    (e : DeviceEvent) (ss : List DeviceService) → Has e (require_connections ss) → IsMissing ss e
unfolding require_connections
missing e [] h = absurd h
missing e (s ∷ ss) h = elim (Bool-cases (lacks_connection s)) [
  | inl t ↦ elim (rw t at h) [
    | inl same ↦ (s, inl refl, t, sym same)
    | inr m ↦ let (x, i, l, q) = missing e ss m in (x, inr i, l, q)
  ]
  | inr t ↦ let (x, i, l, q) = missing e ss (rw t at h) in (x, inr i, l, q)
]

asked :
    (s : DeviceService) (ss : List DeviceService)
    → Has s ss
    → lacks_connection s ≡ true
    → Has (connection_required (service_name s)) (require_connections ss)
unfolding require_connections
asked s [] h t = absurd h
asked s (x ∷ ss) (inl same) t =
    let u : lacks_connection x ≡ true = subst (λ y. lacks_connection y ≡ true) (sym same) t in
    rw u (inl (ap (λ y. connection_required (service_name y)) same))
asked s (x ∷ ss) (inr m) t = elim (Bool-cases (lacks_connection x)) [
  | inl u ↦ rw u (inr (asked s ss m t))
  | inr u ↦ rw u (asked s ss m t)
]

-- A delegate that responds to it is asked, when it is set, for exactly the connections of the
-- services that can be connected and are not.
pub set_delegate-asks_iff :
    (g : DeviceDelegate) (d : Device) (e : DeviceEvent)
    → g.on_connection_required ≡ true
    → Has e (set_delegate (some g) d).1 ↔ IsMissing (services d) e
unfolding set_delegate
set_delegate-asks_iff g d e t = (
  λ h. missing e (services d) (rw t at h),
  λ (s, m, l, q).
      rw t
        (subst (λ x. Has x (require_connections (services d))) (sym q) (asked s (services d) m l)),
)

-- The keys of the services with a comma and a blank behind each, and without the last two of these.
unfoldable pub append_names : Dict DeviceService → List ℕ → List ℕ
append_names [] text = text
append_names ((key, service) ∷ ss) text =
    append_names ss (text ++ (codes key ++ (b',' ∷ b' ' ∷ [])))

unfoldable pub connected_service_names : Device → List ℕ
connected_service_names d =
    let names = append_names d.services [] in
    if length (services d) == 0 then [] else substring_to_index (length names - 2) names

-- The names with a comma and a blank between each two.
unfoldable pub joined : Dict DeviceService → List ℕ
joined [] = []
joined ((key, service) ∷ []) = codes key
joined ((key, service) ∷ (next ∷ ss)) = codes key ++ (b',' ∷ (b' ' ∷ joined (next ∷ ss)))

append_names-joined :
    (key : String) (service : DeviceService) (ss : Dict DeviceService) (text : List ℕ)
    → append_names ((key, service) ∷ ss) text
      ≡ text ++ (joined ((key, service) ∷ ss) ++ (b',' ∷ b' ' ∷ []))
unfolding append_names joined
append_names-joined key service [] text = refl
append_names-joined key service ((k, s) ∷ ss) text =
    append_names-joined k s ss (text ++ (codes key ++ (b',' ∷ b' ' ∷ []))) ∙ simp append_assoc refl

substring_to_index-append : (xs ys : List ℕ) → substring_to_index (length xs) (xs ++ ys) ≡ xs
unfolding substring_to_index
substring_to_index-append [] ys = refl
substring_to_index-append (x ∷ xs) ys = ap (◌∷◌ x) (substring_to_index-append xs ys)

-- The text of a device's services has their names with a comma and a blank between each two.
pub connected_service_names-joined : (d : Device) → connected_service_names d ≡ joined d.services
unfolding connected_service_names
connected_service_names-joined d = go d.services
  where
    shorter : (xs : List ℕ) → length (xs ++ (b',' ∷ b' ' ∷ [])) - 2 ≡ length xs
    shorter xs = omega (arith, length-append xs (b',' ∷ b' ' ∷ []))

    go :
        (ss : Dict DeviceService)
        → (if length (all_values ss) == 0
            then []
            else substring_to_index (length (append_names ss []) - 2) (append_names ss []))
          ≡ joined ss
    go [] = unfold joined in refl
    go ((key, service) ∷ ss) =
        let whole = append_names-joined key service ss [] in
        let some_there : (length (all_values ((key, service) ∷ ss)) == 0) ≡ false = ground arith in
        rw (some_there, whole)
          (ap (λ n. substring_to_index n (joined ((key, service) ∷ ss) ++ (b',' ∷ b' ' ∷ [])))
              (shorter (joined ((key, service) ∷ ss)))
            ∙ substring_to_index-append (joined ((key, service) ∷ ss)) (b',' ∷ b' ' ∷ []))
