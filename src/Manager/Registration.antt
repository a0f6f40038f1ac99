-- ===== src/Manager/Registration.antt =====
-- Discovery/DiscoveryManager.m: registering classes of services with the providers that find them.
-- An object and a class is a name; `none` is an exception of Foundation or of the runtime.
use connect_sdk_i_os_core.Prelude.{
  ℕ, suc, String, ◌≡◌, ◌∙◌, sym, ap, subst, refl, Bool, true, not, List, [], ◌∷◌, ◌++◌, Option,
  none, some, if◌then◌else◌, ◌==◌, ◌>>=◌, Dict, object_for_key, set_object, remove_object,
  find_first, select, map, Has, Has-append_right, Bool-cases, some_injective, inl, inr, text_eq,
  text_eq_iff, object_for_key-set_object, arith,
}
use connect_sdk_i_os_core.Manager.{ManagerEvent, provider, stop}

-- A class of services: `parameters` is the service id in what `discoveryParameters` answers.
pub record ServiceClass : Type 0 where
  pub name : String
  pub is_device_service : Bool
  pub parameters : Option String

-- A class of providers. `parameters` is `none` where the class does not respond to
-- `discoveryParameters`, and otherwise the service id in the answer.
pub record DiscoveryClass : Type 0 where
  pub name : String
  pub is_provider : Bool
  pub parameters : Option (Option String)

-- A provider of the manager: its object, its class, and the services that it searches for.
pub record Registered : Type 0 where
  pub object : ℕ
  pub provider_class : String
  pub filters : List String

pub record Registry : Type 0 where
  pub device_classes : Dict String
  pub discovery_providers : List Registered
  pub fresh : ℕ

abbrev pub with_filter : ℕ → String → Registered → Registered
with_filter object service_id p =
    if p.object == object then record p { filters = p.filters ++ service_id ∷ [] } else p

abbrev pub without_filter : ℕ → String → Registered → Registered
without_filter object service_id p =
    if p.object == object
    then record p { filters = select (λ f. not (text_eq f service_id)) p.filters }
    else p

class-with_filter :
    (object : ℕ) (service_id : String) (p : Registered)
    → (with_filter object service_id p).provider_class ≡ p.provider_class
class-with_filter object service_id p = elim (Bool-cases (p.object == object)) [
  | inl t ↦ rw t refl
  | inr t ↦ rw t refl
]

filters-with_filter :
    (service_id : String) (p : Registered)
    → Has service_id (with_filter p.object service_id p).filters
filters-with_filter service_id p =
    let same : (p.object == p.object) ≡ true = ground arith in
    subst
      (λ b.
        Has service_id
          (if b then record p { filters = p.filters ++ service_id ∷ [] } else p).filters)
      (sym same) (Has-append_right service_id p.filters (service_id ∷ []) (inl refl))

module _ (is_subclass_of : String → String → Bool) where
  -- The first provider of the class.
  abbrev pub find_provider : String → List Registered → Option Registered
  find_provider name ps = find_first (λ p. is_subclass_of p.provider_class name) ps

  -- The provider that is there, or the new one, which is then listed.
  unfoldable pub ensure_provider :
      Option Registered → DiscoveryClass → Registry → Registry × Registered
  ensure_provider (some p) c g = (record g { fresh = suc g.fresh }, p)
  ensure_provider none c g =
      let p : Registered = record { object = g.fresh; provider_class = c.name; filters = [] } in
      (record g { discovery_providers = g.discovery_providers ++ p ∷ []; fresh = suc g.fresh }, p)

  -- The service is filed, and the provider searches for it.
  unfoldable pub file_class : ServiceClass → Registry × Registered → Option Registry
  file_class s (g, p) = do
    service_id ← s.parameters
    some (record g {
      device_classes = set_object service_id s.name g.device_classes;
      discovery_providers = map (with_filter p.object service_id) g.discovery_providers;
    })

  unfoldable pub register_device_service :
      ServiceClass → DiscoveryClass → Registry → Option Registry
  register_device_service s c g =
      if not c.is_provider
      then some g
      else if not s.is_device_service
      then some g
      else file_class s (ensure_provider (find_provider c.name g.discovery_providers) c g)

  -- The part of `unregisterDeviceService:withDiscovery:` behind the search of the provider. The
  -- parameters are asked of the class of the provider. `is_empty` is what the provider answers
  -- behind the removal of the filter.
  unfoldable pub drop_class :
      Bool → DiscoveryClass → Registry → Option Registered → Option (Registry × List ManagerEvent)
  drop_class is_empty c g none = some (g, [])
  drop_class is_empty c g (some p) = do
    parameters ← c.parameters
    service_id ← parameters
    let g' = record g { device_classes = remove_object service_id g.device_classes }
    some (
        if is_empty
        then (
          record g' {
            discovery_providers = select (λ q. not (q.object == p.object)) g.discovery_providers;
          },
          provider stop p.object ∷ [],
        )
        else (
          record g' {
            discovery_providers = map (without_filter p.object service_id) g.discovery_providers;
          },
          [],
        ))

  unfoldable pub unregister_device_service :
      Bool → ServiceClass → DiscoveryClass → Registry → Option (Registry × List ManagerEvent)
  unregister_device_service is_empty s c g =
      if not c.is_provider
      then some (g, [])
      else if not s.is_device_service
      then some (g, [])
      else drop_class is_empty c g (find_provider c.name g.discovery_providers)

  -- A provider of the class is listed, and the service of the id is filed under the class.
  abbrev pub Finds : String → String → String → Registry → Type 0
  Finds name service_id service_class g =
      ((p : Registered) × (find_provider name g.discovery_providers ≡ some p)
        × Has service_id p.filters)
      × (object_for_key service_id g.device_classes ≡ some service_class)

  find_provider-with_filter :
      (name : String) (object : ℕ) (service_id : String) (ps : List Registered) (p : Registered)
      → find_provider name ps ≡ some p
      → find_provider name (map (with_filter object service_id) ps)
        ≡ some (with_filter object service_id p)
  unfolding find_first
  find_provider-with_filter name object service_id [] p e = cc
  find_provider-with_filter name object service_id (q ∷ ps) p e =
      let same =
        ap (λ (c : String). is_subclass_of c name) (class-with_filter object service_id q) in
      elim (Bool-cases (is_subclass_of q.provider_class name)) [
        | inl t ↦ rw (same ∙ t) (
            ap (λ (x : Registered). some (with_filter object service_id x))
              (some_injective (rw t at e)))
        | inr t ↦ rw (same ∙ t) (find_provider-with_filter name object service_id ps p (rw t at e))
      ]

  find_provider-append :
      (name : String) (ps : List Registered) (p : Registered)
      → find_provider name ps ≡ none
      → is_subclass_of p.provider_class name ≡ true
      → find_provider name (ps ++ p ∷ []) ≡ some p
  unfolding find_first
  find_provider-append name [] p e h = rw h refl
  find_provider-append name (q ∷ ps) p e h =
      elim (Bool-cases (is_subclass_of q.provider_class name)) [
        | inl t ↦ cc (rw t at e)
        | inr t ↦ rw t (find_provider-append name ps p (rw t at e) h)
      ]

  ensure_provider-finds :
      (o : Option Registered) (c : DiscoveryClass) (g : Registry)
      → find_provider c.name g.discovery_providers ≡ o
      → is_subclass_of c.name c.name ≡ true
      → find_provider c.name (ensure_provider o c g).0.discovery_providers
        ≡ some (ensure_provider o c g).1
  unfolding ensure_provider
  ensure_provider-finds none c g e h =
      find_provider-append c.name g.discovery_providers
        (record { object = g.fresh; provider_class = c.name; filters = [] }) e h
  ensure_provider-finds (some p) c g e h = e

  file_class-Finds :
      (name : String) (s : ServiceClass) (g : Registry) (p : Registered) (service_id : String)
      → s.parameters ≡ some service_id
      → find_provider name g.discovery_providers ≡ some p
      → (g' : Registry) × (file_class s (g, p) ≡ some g') × Finds name service_id s.name g'
  unfolding file_class
  file_class-Finds name s g p service_id named e = rw named (
    _,
    refl,
    (
      (
        with_filter p.object service_id p,
        find_provider-with_filter name p.object service_id g.discovery_providers p e,
        filters-with_filter service_id p,
      ),
      object_for_key-set_object service_id service_id s.name g.device_classes
          ∙ rw ((text_eq_iff service_id service_id).1 refl) refl,
    ),
  )

  -- Registering a service with a class of providers files the service under its id, and the first
  -- provider of that class then searches for it.
  pub register_device_service-Finds :
      (s : ServiceClass) (c : DiscoveryClass) (g : Registry) (service_id : String)
      → c.is_provider ≡ true
      → s.is_device_service ≡ true
      → s.parameters ≡ some service_id
      → is_subclass_of c.name c.name ≡ true
      → (g' : Registry) × (register_device_service s c g ≡ some g')
        × Finds c.name service_id s.name g'
  unfolding register_device_service
  register_device_service-Finds s c g service_id provides serves named self =
      let (g1, p) = ensure_provider (find_provider c.name g.discovery_providers) c g in
      let found =
        ensure_provider-finds (find_provider c.name g.discovery_providers) c g refl self in
      simp (provides, serves) (file_class-Finds c.name s g1 p service_id named found)

  -- A service that was just registered with a class of providers that does not respond to
  -- `discoveryParameters` cannot be unregistered: the attempt raises an exception.
  pub unregister_device_service-raises :
      (s : ServiceClass) (c : DiscoveryClass) (g : Registry) (service_id : String) (is_empty : Bool)
      → c.is_provider ≡ true
      → s.is_device_service ≡ true
      → s.parameters ≡ some service_id
      → is_subclass_of c.name c.name ≡ true
      → c.parameters ≡ none
      → (register_device_service s c g >>= unregister_device_service is_empty s c) ≡ none
  unfolding unregister_device_service
  unregister_device_service-raises s c g service_id is_empty provides serves named self silent =
      let (g', registered, ((p, found, _), _)) =
        register_device_service-Finds s c g service_id provides serves named self in
      ap (λ o. o >>= unregister_device_service is_empty s c) registered
      ∙ simp (provides, serves) (ap (drop_class is_empty c g') found ∙ raised p g')
    where
      raised : (p : Registered) (g' : Registry) → drop_class is_empty c g' (some p) ≡ none
      raised p g' = unfold drop_class in rw silent refl
