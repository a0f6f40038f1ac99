-- ===== src/ZeroConf/Knowledge.antt =====
-- Discovery/Providers/ZeroConfDiscoveryProvider.m: what a delegate knows of the services that are
-- discovered, behind each step of the provider.
use connect_sdk_i_os_core.Prelude.{
  String, ◌≡◌, ◌≢◌, ◌∙◌, sym, ap, refl, subst, inl, inr, Bool, true, false, List, [], ◌∷◌, ◌++◌,
  Option, none, some, if◌then◌else◌, arith, Dict, object_for_key, set_object, remove_object,
  object_for_key-set_object, object_for_key-remove_object, Bool-cases, text_eq, text_eq_iff, Has,
  AllEntries, set_object-AllEntries, remove_object-AllEntries, object_for_key-AllEntries,
}
use connect_sdk_i_os_core.Description.{ServiceDescription}
use connect_sdk_i_os_core.ZeroConf.{
  ZeroConf, NetService, ZeroConfEvent, tells_found, tells_lost, resolve, search_for, stop_browser,
  Answer, find_service, remove_service, removed, resolved, remove_name, is_known, tell_lost,
  stop_if_last,
}

-- A delegate that files each description under its friendly name, and takes lost ones off.
abbrev pub file_found :
    Option String → ServiceDescription → Dict ServiceDescription → Dict ServiceDescription
file_found none d v = v
file_found (some name) d v = set_object name d v

abbrev pub file_lost : Option String → Dict ServiceDescription → Dict ServiceDescription
file_lost none v = v
file_lost (some name) v = remove_object name v

abbrev pub hear_event : ZeroConfEvent → Dict ServiceDescription → Dict ServiceDescription
hear_event (tells_found d) v = file_found d.friendly_name d v
hear_event (tells_lost d) v = file_lost d.friendly_name v
hear_event (resolve name) v = v
hear_event (search_for type) v = v
hear_event stop_browser v = v

unfoldable pub hear_events : List ZeroConfEvent → Dict ServiceDescription → Dict ServiceDescription
hear_events [] v = v
hear_events (e ∷ es) v = hear_events es (hear_event e v)

-- The provider runs, its delegate hears everything and knows exactly the services that were
-- discovered, each by its name; and no service is both discovered and being resolved.
pub record IsWatched (z : ZeroConf) (v : Dict ServiceDescription) : Type 0 where
  pub running : z.is_running ≡ true
  pub hears : (z.finds ≡ true) × (z.loses ≡ true)
  pub named : AllEntries (λ k d. d.friendly_name ≡ some k) z.discovered_devices
  pub known : (k : String) → object_for_key k v ≡ object_for_key k z.discovered_devices
  pub apart :
      (k : String) → Has k z.resolving_devices → object_for_key k z.discovered_devices ≡ none

abbrev pub Watches : Dict ServiceDescription → Answer → Type 0
Watches v (z, events) = IsWatched z (hear_events events v)

kept_name :
    (k name x : String) (xs rest : List String)
    → (Has k rest → Has k xs × (name ≢ k))
    → text_eq x name ≡ false
    → Has k (x ∷ rest)
    → Has k (x ∷ xs) × (name ≢ k)
kept_name k name x xs rest ih t (inl e) =
    (inl e, λ same. ground (arith, t, e, same, text_eq_iff x name))
kept_name k name x xs rest ih t (inr m) = let (m', ne) = ih m in (inr m', ne)

pub Has-remove_name :
    (k name : String) (xs : List String) → Has k (remove_name name xs) → Has k xs × (name ≢ k)
unfolding remove_name
Has-remove_name k name [] h = absurd h
Has-remove_name k name (x ∷ xs) h = elim (Bool-cases (text_eq x name)) [
  | inl t ↦ let (m, ne) = Has-remove_name k name xs (rw t at h) in (inr m, ne)
  | inr t ↦ kept_name k name x xs (remove_name name xs) (Has-remove_name k name xs) t (rw t at h)
]

-- The browser is stopped behind the last service, which the delegate does not hear of.
stop_if_last-silent :
    (more : Bool) (v : Dict ServiceDescription) → hear_events (stop_if_last more) v ≡ v
unfolding hear_events
stop_if_last-silent true v = refl
stop_if_last-silent false v = refl

module _ (z : ZeroConf) (v : Dict ServiceDescription) (w : IsWatched z v) where
  seeks :
      (name : String)
      → object_for_key name z.discovered_devices ≡ none
      → IsWatched (record z { resolving_devices = name ∷ z.resolving_devices }) v
  seeks name absent = record {
    running = w.running;
    hears = w.hears;
    named = w.named;
    known = w.known;
    apart = apart;
  }
    where
      apart :
          (k : String)
          → Has k (name ∷ z.resolving_devices)
          → object_for_key k z.discovered_devices ≡ none
      apart k (inl e) = subst (λ x. object_for_key x z.discovered_devices ≡ none) e absent
      apart k (inr m) = w.apart k m

  pub find_service-Watches :
      (s : NetService) (more_coming : Bool) → Watches v (find_service s more_coming z)
  unfolding find_service hear_events is_known
  find_service-Watches s more_coming = elim (Bool-cases (is_known s.name z)) [
    | inl t ↦ rw t w
    | inr t ↦
        let absent : object_for_key s.name z.discovered_devices ≡ none = ground arith in
        rw t (
          subst (IsWatched (record z { resolving_devices = s.name ∷ z.resolving_devices }))
            (sym (stop_if_last-silent more_coming v)) (seeks s.name absent))
  ]

  drops :
      (name : String)
      → IsWatched
          (record z { discovered_devices = remove_object name z.discovered_devices })
          (remove_object name v)
  drops name = record {
    running = w.running;
    hears = w.hears;
    named = remove_object-AllEntries _ name z.discovered_devices w.named;
    known = λ k.
        object_for_key-remove_object name k v
        ∙ (ap (λ o. if text_eq name k then none else o) (w.known k)
            ∙ sym (object_for_key-remove_object name k z.discovered_devices));
    apart = λ k m.
        object_for_key-remove_object name k z.discovered_devices
        ∙ (rw (w.apart k m) (ground arith));
  }

  pub files :
      (name : String) (d : ServiceDescription)
      → d.friendly_name ≡ some name
      → ((k : String) → Has k z.resolving_devices → name ≢ k)
      → IsWatched
          (record z { discovered_devices = set_object name d z.discovered_devices })
          (set_object name d v)
  files name d own other = record {
    running = w.running;
    hears = w.hears;
    named = set_object-AllEntries _ name d z.discovered_devices own w.named;
    known = λ k.
        object_for_key-set_object name k d v
        ∙ (ap (λ o. if text_eq name k then some d else o) (w.known k)
            ∙ sym (object_for_key-set_object name k d z.discovered_devices));
    apart = λ k m.
        object_for_key-set_object name k d z.discovered_devices
        ∙ ground (arith, other k m, w.apart k m, text_eq_iff name k);
  }

  pub remove_service-Watches :
      (s : NetService) (more_coming : Bool) → Watches v (remove_service s more_coming z)
  unfolding remove_service hear_events
  remove_service-Watches s more_coming =
      go more_coming (object_for_key s.name z.discovered_devices) refl
    where
      heard :
          (more : Bool) (d : ServiceDescription)
          → d.friendly_name ≡ some s.name
          → hear_events (tell_lost z d ++ stop_if_last more) v ≡ remove_object s.name v
      heard more d own = rw w.hears.1 (rw own (stop_if_last-silent more (remove_object s.name v)))

      go :
          (more : Bool) (o : Option ServiceDescription)
          → object_for_key s.name z.discovered_devices ≡ o
          → Watches v (removed s.name more z o)
      go more none e = w
      go more (some d) e =
          let own : d.friendly_name ≡ some s.name =
            object_for_key-AllEntries _ s.name d z.discovered_devices w.named e in
          subst
            (IsWatched
              (record z { discovered_devices = remove_object s.name z.discovered_devices }))
            (sym (heard more d own)) (drops s.name)

  pub resolved-IsWatched : (name : String) → IsWatched (resolved name z) v
  unfolding resolved
  resolved-IsWatched name = record {
    running = w.running;
    hears = w.hears;
    named = w.named;
    known = w.known;
    apart = λ k h. w.apart k (Has-remove_name k name z.resolving_devices h).0;
  }
