-- ===== src/Ssdp/Tracking.antt =====
-- Discovery/Providers/SSDPDiscoveryProvider.m: which services the provider keeps.
use connect_sdk_i_os_core.Prelude.{
  ℕ, String, ◌≡◌, refl, subst, some_injective, ◌⊎◌, inl, inr, Bool, true, false, List, [], ◌∷◌,
  Option, none, some, select, is_equal_to_string, text_eq, text_eq_iff, Dict, object_for_key,
  set_object, remove_object, object_for_key-set_object, object_for_key-remove_object, Bool-cases,
  Option-cases, arith,
}
use connect_sdk_i_os_core.Description.{ServiceDescription}
use connect_sdk_i_os_core.Ssdp.{
  Filter, Provider, Datagram, Announcement, SsdpEvent, heed, bye_at, advertise_at, advertise,
  new_service, stop_discovery, kill_inactive, send_search_requests, start_discovery, XmlDevice,
  Response,
}
use connect_sdk_i_os_core.Ssdp.Receiving.{
  uuid_units, usn_of, announced, is_wanted, did_receive_data,
}
use connect_sdk_i_os_core.Ssdp.Devices.{loaded_at, matching, location_loaded, completed}

-- No UUID is both greeted and found.
abbrev pub IsApart : Provider → Type 0
IsApart p =
    (u : String)
    → (object_for_key u p.found_services ≡ none) ⊎ (object_for_key u p.hello_devices ≡ none)

-- Setting one key of the found services, where it is not greeted, or of the greeted ones.
set_found-IsApart :
    (u v : String) (s : ServiceDescription) (found hello : Dict ServiceDescription)
    → (object_for_key u hello ≡ none)
    → (object_for_key v found ≡ none) ⊎ (object_for_key v hello ≡ none)
    → (object_for_key v (set_object u s found) ≡ none) ⊎ (object_for_key v hello ≡ none)
set_found-IsApart u v s found hello free h = elim (Bool-cases (text_eq u v)) [
  | inl e ↦ inr (subst (λ y. object_for_key y hello ≡ none) ((text_eq_iff u v).0 e) free)
  | inr e ↦ elim h [ inl a ↦ inl (rw (object_for_key-set_object u v s found, e) a) | inr b ↦ inr b ]
]

advertise_at-IsApart :
    (p : Provider) (g : Announcement) (l : String) (now : ℕ)
    → IsApart p
    → IsApart
        (advertise_at
          (object_for_key g.uuid p.found_services)
          (object_for_key g.uuid p.hello_devices)
          p
          g
          l
          now).0
unfolding advertise_at
advertise_at-IsApart p g l now h u = elim (Option-cases (object_for_key g.uuid p.found_services)) [
  | inr (s, e) ↦
      rw (e, advertise_at)
        (set_found-IsApart g.uuid u _ p.found_services p.hello_devices (greeted_none s e (h g.uuid))
          (h u))
  | inl e ↦ elim (Option-cases (object_for_key g.uuid p.hello_devices)) [
    | inr (s, f) ↦ rw (e, f, advertise_at) (h u)
    | inl f ↦
        rw (e, f, advertise_at)
          (swap (
            set_found-IsApart g.uuid u (new_service g now) p.hello_devices p.found_services e
              (swap (h u))))
  ]
]
  where
    swap : {A B : Type 0} → A ⊎ B → B ⊎ A
    swap (inl a) = inr a
    swap (inr b) = inl b

    greeted_none :
        (s : ServiceDescription)
        → object_for_key g.uuid p.found_services ≡ some s
        → (object_for_key g.uuid p.found_services ≡ none)
          ⊎ (object_for_key g.uuid p.hello_devices ≡ none)
        → object_for_key g.uuid p.hello_devices ≡ none
    greeted_none s e (inl a) = cc
    greeted_none s e (inr b) = b

remove_found-IsApart :
    (u v : String) (found hello : Dict ServiceDescription)
    → (object_for_key v found ≡ none) ⊎ (object_for_key v hello ≡ none)
    → (object_for_key v (remove_object u found) ≡ none) ⊎ (object_for_key v hello ≡ none)
remove_found-IsApart u v found hello (inr b) = inr b
remove_found-IsApart u v found hello (inl a) =
    inl (ground (arith, object_for_key-remove_object u v found))

bye_at-IsApart :
    (o : Option ServiceDescription) (p : Provider) (u : String)
    → IsApart p
    → IsApart (bye_at o p u).0
unfolding bye_at
bye_at-IsApart none p u h = h
bye_at-IsApart (some s) p u h = λ v. remove_found-IsApart u v p.found_services p.hello_devices (h v)

heed-IsApart : (p : Provider) (g : Announcement) (now : ℕ) → IsApart p → IsApart (heed p g now).0
unfolding heed
heed-IsApart p g now h = elim (Bool-cases (text_eq g.uuid "")) [
  | inl e ↦ rw e h
  | inr e ↦ elim (Bool-cases (is_equal_to_string g.nts (some "ssdp:byebye"))) [
    | inl b ↦ rw (e, b) (bye_at-IsApart (object_for_key g.uuid p.found_services) p g.uuid h)
    | inr b ↦ rw (e, b) (advertised g.location)
  ]
]
  where
    advertised : (o : Option String) → IsApart (advertise o p g now).0
    advertised none = unfold advertise in h
    advertised (some l) = elim (Bool-cases (text_eq l "")) [
      | inl t ↦ unfold advertise in rw t h
      | inr t ↦ unfold advertise in rw t (advertise_at-IsApart p g l now h)
    ]

location_loaded-IsApart :
    (p : Provider) (u : String) (type : Option String) (xml : Option XmlDevice) (r : Response)
    → IsApart p
    → IsApart (location_loaded p u type xml r).0
unfolding location_loaded
location_loaded-IsApart p u type xml r h v =
    go (matching p type xml) (object_for_key u p.hello_devices)
  where
    gone :
        object_for_key v p.hello_devices ≡ none
        → object_for_key v (remove_object u p.hello_devices) ≡ none
    gone e = ground (arith, object_for_key-remove_object u v p.hello_devices)

    unchanged :
        (object_for_key v p.found_services ≡ none)
        ⊎ (object_for_key v (remove_object u p.hello_devices) ≡ none)
    unchanged = elim (h v) [ inl a ↦ inl a | inr b ↦ inr (gone b) ]

    go :
        (o : Option XmlDevice) (q : Option ServiceDescription)
        → (object_for_key v (loaded_at o q p u type r).0.found_services ≡ none)
          ⊎ (object_for_key v (remove_object u (loaded_at o q p u type r).0.hello_devices) ≡ none)
    go none q = unfold loaded_at in unchanged
    go (some d) none = unfold loaded_at in unchanged
    go (some d) (some s) =
        unfold loaded_at in
        set_found-IsApart u v (completed type d r s) p.found_services
          (remove_object u p.hello_devices)
          (rw (object_for_key-remove_object u u p.hello_devices, (text_eq_iff u u).1 refl) refl)
          unchanged

select-none :
    (q : String × ServiceDescription → Bool) (v : String) (d : Dict ServiceDescription)
    → object_for_key v d ≡ none
    → object_for_key v (select q d) ≡ none
unfolding select object_for_key
select-none q v [] e = refl
select-none q v ((j, s) ∷ d) e = ground (arith, select-none q v d)

send_search_requests-IsApart :
    (kill : Bool) (now : ℕ) (fs : List Filter) (p : Provider)
    → IsApart p
    → IsApart (send_search_requests kill now p fs).0
unfolding send_search_requests kill_inactive
send_search_requests-IsApart kill now [] p h = h
send_search_requests-IsApart true now (f ∷ fs) p h =
    send_search_requests-IsApart true now fs _
      (λ v. elim (h v) [ inl a ↦ inl (select-none _ v p.found_services a) | inr b ↦ inr b ])
send_search_requests-IsApart false now (f ∷ fs) p h = send_search_requests-IsApart false now fs p h

-- What can happen to the provider.
pub data Act : Type 0 where
  starts : ℕ → Act
  stops : Act
  refreshes : Bool → ℕ → Act
  receives : Datagram → ℕ → Act
  loads : String → Option String → Option XmlDevice → Response → Act

start_discovery-IsApart : (p : Provider) (now : ℕ) → IsApart p → IsApart (start_discovery now p).0
unfolding start_discovery
start_discovery-IsApart p now h = elim (Bool-cases p.is_running) [
  | inl e ↦ rw e h
  | inr e ↦ elim (Bool-cases p.refresh_timer) [
    | inl t ↦ simp (e, t) h
    | inr t ↦
        simp (e, t)
          (send_search_requests-IsApart false now p.service_filters
            (record p { is_running = true; refresh_timer = false }) h)
  ]
]

module _ (string_of : List ℕ → String) where
  -- What a call leaves, where it raises no exception.
  unfoldable pub perform : Provider → Act → Option (Provider × List SsdpEvent)
  perform p (starts now) = some (start_discovery now p)
  perform p stops = some (stop_discovery p)
  perform p (refreshes kill now) = some (send_search_requests kill now p p.service_filters)
  perform p (receives g now) = did_receive_data string_of p g now
  perform p (loads u type xml r) = some (location_loaded p u type xml r)

  -- Both dictionaries of the answer have no UUID in common.
  abbrev Leaves : Option (Provider × List SsdpEvent) → Type 0
  Leaves o = (p' : Provider) (events : List SsdpEvent) → o ≡ some (p', events) → IsApart p'

  answers : (r : Provider × List SsdpEvent) → IsApart r.0 → Leaves (some r)
  answers r h p' events e = subst (λ x. IsApart x.0) (some_injective e) h

  did_receive_data-Leaves :
      (p : Provider) (g : Datagram) (now : ℕ)
      → IsApart p
      → Leaves (did_receive_data string_of p g now)
  unfolding did_receive_data
  did_receive_data-Leaves p g now h = elim (Bool-cases (is_wanted p g)) [
    | inr t ↦ rw t (answers (p, []) h)
    | inl t ↦ elim (Option-cases (uuid_units g.usn_match (usn_of g))) [
      | inl n ↦ rw (t, n) (λ p' events e. cc e)
      | inr (units, n) ↦
          rw (t, n) (answers _ (heed-IsApart p (announced g (string_of units)) now h))
    ]
  ]

  perform-Leaves : (p : Provider) (a : Act) → IsApart p → Leaves (perform p a)
  unfolding perform stop_discovery object_for_key
  perform-Leaves p (starts now) h = answers _ (start_discovery-IsApart p now h)
  perform-Leaves p stops h = answers _ (λ u. inl refl)
  perform-Leaves p (refreshes kill now) h =
      answers _ (send_search_requests-IsApart kill now p.service_filters p h)
  perform-Leaves p (receives g now) h = did_receive_data-Leaves p g now h
  perform-Leaves p (loads u type xml r) h = answers _ (location_loaded-IsApart p u type xml r h)

  -- Whatever happens to the provider, and raises no exception, no UUID is both greeted and found
  -- behind it, if none was before.
  pub perform-IsApart :
      (p p' : Provider) (a : Act) (events : List SsdpEvent)
      → IsApart p
      → perform p a ≡ some (p', events)
      → IsApart p'
  perform-IsApart p p' a events h e = perform-Leaves p a h p' events e
