-- ===== src/Ssdp/Loads.antt =====
-- Discovery/Providers/SSDPDiscoveryProvider.m: when the provider asks for a location document.
use mathlib.Core.Bool.{false≢true}
use connect_sdk_i_os_core.Prelude.{
  ap, subst, some_injective, map, ℕ, String, ◌≡◌, sym, refl, inl, inr, Bool, true, false, List, [],
  ◌∷◌, Option, none, some, is_set, is_equal_to_string, text_eq, text_eq_iff, object_for_key,
  object_for_key-set_object, Bool-cases, Option-cases, Has,
}
use connect_sdk_i_os_core.Description.{ServiceDescription}
use connect_sdk_i_os_core.Ssdp.{
  Provider, Datagram, Announcement, SsdpEvent, heed, load_location, search_request, cancel_loads,
  service_ids_for_filter, did_find, did_lose, notify_delegate, bye_at, advertise_at, advertise,
  new_service,
}
use connect_sdk_i_os_core.Ssdp.Receiving.{
  uuid_units, usn_of, announced, is_wanted, did_receive_data,
}

abbrev is_load : SsdpEvent → Bool
is_load (did_find s) = false
is_load (did_lose s) = false
is_load (search_request f) = false
is_load (load_location l u) = true
is_load cancel_loads = false

losses_load_nothing :
    (l u : String) (s : ServiceDescription) (ids : List String)
    → ¬ Has (load_location l u) (map (λ i. did_lose (record s { service_id = some i })) ids)
losses_load_nothing l u s [] m = absurd m
losses_load_nothing l u s (i ∷ ids) (inl e) = false≢true (ap is_load e)
losses_load_nothing l u s (i ∷ ids) (inr m) = losses_load_nothing l u s ids m

bye_loads_nothing :
    (l u : String) (o : Option ServiceDescription) (p : Provider) (v : String)
    → ¬ Has (load_location l u) (bye_at o p v).1
unfolding bye_at notify_delegate
bye_loads_nothing l u none p v m = m
bye_loads_nothing l u (some s) p v m =
    losses_load_nothing l u s (service_ids_for_filter p.service_filters s.type) m

-- What a load of the document for `u` tells of the provider before and behind it.
abbrev pub Greets : String → Provider → Provider → Type 0
Greets u p p' =
    (object_for_key u p.found_services ≡ none)
    × (object_for_key u p.hello_devices ≡ none)
    × (is_set (object_for_key u p'.hello_devices) ≡ true)

abbrev load_uuid : SsdpEvent → String
load_uuid (did_find s) = ""
load_uuid (did_lose s) = ""
load_uuid (search_request f) = ""
load_uuid (load_location l u) = u
load_uuid cancel_loads = ""

advertise_at-Greets :
    (p : Provider) (g : Announcement) (k l u : String) (now : ℕ)
    → Has
        (load_location l u)
        (advertise_at
          (object_for_key g.uuid p.found_services)
          (object_for_key g.uuid p.hello_devices)
          p
          g
          k
          now).1
    → Greets u p
        (advertise_at
          (object_for_key g.uuid p.found_services)
          (object_for_key g.uuid p.hello_devices)
          p
          g
          k
          now).0
unfolding advertise_at
advertise_at-Greets p g k l u now m = elim (Option-cases (object_for_key g.uuid p.found_services)) [
  | inr (s, e) ↦ absurd (rw (e, advertise_at) at m)
  | inl e ↦ elim (Option-cases (object_for_key g.uuid p.hello_devices)) [
    | inr (s, f) ↦ absurd (rw (e, f, advertise_at) at m)
    | inl f ↦
        let loaded : Has (load_location l u) (load_location k g.uuid ∷ []) =
          rw (e, f, advertise_at) at m in
        elim loaded [
          | inl q ↦
              let same : g.uuid ≡ u = ap load_uuid q in
              rw (e, f, advertise_at)
                (rw (sym same) (
                  e,
                  f,
                  rw
                      (
                        object_for_key-set_object g.uuid g.uuid (new_service g now) p.hello_devices,
                        (text_eq_iff g.uuid g.uuid).1 refl,
                      )
                      refl,
                ))
          | inr z ↦ absurd z
        ]
  ]
]

advertise-Greets :
    (p : Provider) (g : Announcement) (o : Option String) (l u : String) (now : ℕ)
    → Has (load_location l u) (advertise o p g now).1
    → Greets u p (advertise o p g now).0
unfolding advertise
advertise-Greets p g none l u now m = absurd m
advertise-Greets p g (some k) l u now m = elim (Bool-cases (text_eq k "")) [
  | inl t ↦ absurd (rw t at m)
  | inr t ↦ rw t (advertise_at-Greets p g k l u now (rw t at m))
]

heed-Greets :
    (p : Provider) (g : Announcement) (now : ℕ) (l u : String)
    → Has (load_location l u) (heed p g now).1
    → Greets u p (heed p g now).0
unfolding heed
heed-Greets p g now l u m = elim (Bool-cases (text_eq g.uuid "")) [
  | inl e ↦ absurd (rw e at m)
  | inr e ↦ elim (Bool-cases (is_equal_to_string g.nts (some "ssdp:byebye"))) [
    | inl b ↦
        absurd
          (bye_loads_nothing l u (object_for_key g.uuid p.found_services) p g.uuid (rw (e, b) at m))
    | inr b ↦ rw (e, b) (advertise-Greets p g g.location l u now (rw (e, b) at m))
  ]
]

-- A datagram that raises no exception makes the provider load a location document only if its UUID
-- is neither greeted nor found, and behind it the UUID is greeted: a second datagram loads nothing.
pub did_receive_data-Greets :
    (string_of : List ℕ → String) (p p' : Provider) (g : Datagram) (now : ℕ) (l u : String)
    (events : List SsdpEvent)
    → did_receive_data string_of p g now ≡ some (p', events)
    → Has (load_location l u) events
    → Greets u p p'
unfolding did_receive_data
did_receive_data-Greets string_of p p' g now l u events e m = elim (Bool-cases (is_wanted p g)) [
  | inr t ↦
      let q = some_injective (rw t at e) in
      absurd (subst (Has (load_location l u)) (ap (λ r. r.1) (sym q)) m)
  | inl t ↦ elim (Option-cases (uuid_units g.usn_match (usn_of g))) [
    | inl n ↦ cc (rw (t, n) at e)
    | inr (units, n) ↦
        let q = some_injective (rw (t, n) at e) in
        subst (λ r. Has (load_location l u) r.1 → Greets u p r.0) q
          (heed-Greets p (announced g (string_of units)) now l u) m
  ]
]
