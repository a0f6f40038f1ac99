-- ===== src/Manager/Search/Providers.antt =====
-- Discovery/DiscoveryManager.m: whether the providers run while the manager searches.
use connect_sdk_i_os_core.Prelude.{
  ℕ, ◌≡◌, ◌∙◌, refl, ◌⊎◌, inl, inr, Bool, true, false, List, [], ◌∷◌, ◌++◌, Has, arith,
  if◌then◌else◌, ◌==◌, Bool-cases, all_values,
}
use connect_sdk_i_os_core.Manager.{
  Manager, ManagerEvent, Action, start, stop, pause, resume, provider, start_listening,
  stop_listening, told, store_update, disconnect_device, ssid_changed,
}
use connect_sdk_i_os_core.Manager.Search.{
  each_provider, start_discovery, stop_discovery, pause_discovery, resume_discovery, device_picker,
  lose_each, restart_each, purge_device_list,
}

abbrev runs_after : Action → Bool
runs_after start = true
runs_after stop = false
runs_after pause = false
runs_after resume = true

-- Whether the provider `p` runs behind an event, if `b` is whether it ran before.
abbrev pub runs_event : ℕ → Bool → ManagerEvent → Bool
runs_event p b (provider action q) = if p == q then runs_after action else b
runs_event p b (told l c r) = b
runs_event p b (store_update r) = b
runs_event p b (disconnect_device r) = b
runs_event p b ssid_changed = b
runs_event p b start_listening = b
runs_event p b stop_listening = b

unfoldable pub runs : ℕ → Bool → List ManagerEvent → Bool
runs p b [] = b
runs p b (e ∷ es) = runs p (runs_event p b e) es

runs-append :
    (p : ℕ) (b : Bool) (es fs : List ManagerEvent) → runs p b (es ++ fs) ≡ runs p (runs p b es) fs
unfolding runs
runs-append p b [] fs = refl
runs-append p b (e ∷ es) fs = runs-append p (runs_event p b e) es fs

-- Once told, a provider stays as told by the same action on the others.
runs-told :
    (p : ℕ) (action : Action) (ps : List ℕ)
    → runs p (runs_after action) (each_provider action ps) ≡ runs_after action
unfolding runs each_provider
runs-told p action [] = refl
runs-told p action (q ∷ ps) = elim (Bool-cases (p == q)) [
  | inl t ↦ rw (t, runs) (runs-told p action ps)
  | inr t ↦ rw (t, runs) (runs-told p action ps)
]

runs-each_provider :
    (p : ℕ) (b : Bool) (action : Action) (ps : List ℕ)
    → Has p ps
    → runs p b (each_provider action ps) ≡ runs_after action
unfolding runs each_provider
runs-each_provider p b action [] m = absurd m
runs-each_provider p b action (q ∷ ps) (inl e) =
    let t : (p == q) ≡ true = ground arith in rw (t, runs) (runs-told p action ps)
runs-each_provider p b action (q ∷ ps) (inr m) =
    runs-each_provider p (if p == q then runs_after action else b) action ps m

runs-nil : (p : ℕ) (b : Bool) → runs p b [] ≡ b
unfolding runs
runs-nil p b = refl

runs-listening :
    (p : ℕ) (b : Bool) (e : ManagerEvent)
    → (e ≡ start_listening) ⊎ (e ≡ stop_listening)
    → runs p b (e ∷ []) ≡ b
unfolding runs
runs-listening p b e (inl q) = rw q refl
runs-listening p b e (inr q) = rw q refl

stop-runs :
    (m : Manager) (p : ℕ) (b : Bool)
    → Has p m.providers
    → b ≡ m.searching
    → runs p b (stop_discovery m).1 ≡ (stop_discovery m).0.searching
unfolding stop_discovery
stop-runs m p b here e = ground (
  arith,
  runs-nil p b,
  runs-nil p false,
  runs-each_provider p b stop m.providers here,
  runs-append p b (each_provider stop m.providers) (stop_listening ∷ []),
  runs-append p b (each_provider stop m.providers) [],
  runs-listening p false stop_listening (inr refl),
)

-- What the client and the application do.
pub data Command : Type 0 where
  starts stops backgrounds foregrounds : Command

module _ (register_default_services : Manager → Manager) where
  unfoldable pub step : Manager → Command → Manager × List ManagerEvent
  step m starts = start_discovery register_default_services m
  step m stops = stop_discovery m
  step m backgrounds = pause_discovery m
  step m foregrounds = resume_discovery m

  start-runs :
      (m : Manager) (p : ℕ) (b : Bool)
      → Has p m.providers
      → Has p (register_default_services m).providers
      → b ≡ m.searching
      → runs p b (start_discovery register_default_services m).1
        ≡ (start_discovery register_default_services m).0.searching
  unfolding start_discovery
  start-runs m p b here kept e = ground (
    arith,
    runs-nil p b,
    runs-each_provider p b start m.providers here,
    runs-each_provider p b start (register_default_services m).providers kept,
    runs-append p b (each_provider start m.providers) (start_listening ∷ []),
    runs-append p b (each_provider start (register_default_services m).providers)
        (start_listening ∷ []),
    runs-listening p true start_listening (inl refl),
  )

  -- A registered provider runs exactly while the manager searches: if that holds before a command,
  -- it holds behind it. The registration of the default services keeps the providers there are.
  pub step-runs :
      (m : Manager) (c : Command) (p : ℕ) (b : Bool)
      → Has p m.providers
      → Has p (register_default_services m).providers
      → b ≡ m.searching
      → runs p b (step m c).1 ≡ (step m c).0.searching
  unfolding step pause_discovery resume_discovery
  step-runs m starts p b here kept e = start-runs m p b here kept e
  step-runs m stops p b here kept e = stop-runs m p b here e
  step-runs m backgrounds p b here kept e =
      ground (arith, runs-nil p b, runs-each_provider p b pause m.providers here)
  step-runs m foregrounds p b here kept e =
      ground (arith, runs-nil p b, runs-each_provider p b resume m.providers here)

-- A stop between the background and the foreground is lost: the search is on again behind it.
pub stop_paused-resumes :
    (m : Manager)
    → m.searching ≡ true
    → (stop_discovery (pause_discovery m).0).0.searching ≡ false
      × ((resume_discovery (stop_discovery (pause_discovery m).0).0).0.searching ≡ true)
unfolding pause_discovery stop_discovery resume_discovery
stop_paused-resumes m h = ground arith

device_picker-providers : (m : Manager) → (device_picker m).0.providers ≡ m.providers
unfolding device_picker
device_picker-providers m = ground arith

lose_each-providers : (m : Manager) (rs : List ℕ) → (lose_each m rs).0.providers ≡ m.providers
unfolding lose_each
lose_each-providers m [] = refl
lose_each-providers m (r ∷ rs) =
    lose_each-providers (device_picker m).0 rs ∙ device_picker-providers m

runs-restarted : (p : ℕ) (ps : List ℕ) → runs p true (restart_each ps) ≡ true
unfolding runs restart_each
runs-restarted p [] = refl
runs-restarted p (q ∷ ps) = elim (Bool-cases (p == q)) [
  | inl t ↦ rw (t, runs) (runs-restarted p ps)
  | inr t ↦ rw (t, runs) (runs-restarted p ps)
]

runs-restart_each : (p : ℕ) (b : Bool) (ps : List ℕ) → Has p ps → runs p b (restart_each ps) ≡ true
unfolding runs restart_each
runs-restart_each p b [] m = absurd m
runs-restart_each p b (q ∷ ps) (inl e) =
    let t : (p == q) ≡ true = ground arith in rw (t, runs) (runs-restarted p ps)
runs-restart_each p b (q ∷ ps) (inr m) =
    runs-restart_each p (runs_event p (runs_event p b (provider stop q)) (provider start q)) ps m

-- A change of the network leaves every registered provider running, whether the manager searches
-- or not.
pub purge_device_list-runs :
    (m : Manager) (p : ℕ) (b : Bool) → Has p m.providers → (runs p b (purge_device_list m).1 ≡ true)
unfolding purge_device_list
purge_device_list-runs m p b here =
    let lost_all = lose_each m (all_values m.compatible_devices) in
    runs-append p b lost_all.1 (restart_each lost_all.0.providers)
    ∙ runs-restart_each p (runs p b lost_all.1) lost_all.0.providers
        (rw (lose_each-providers m (all_values m.compatible_devices)) here)
