-- ===== src/ZeroConf/Watching.antt =====
-- Discovery/Providers/ZeroConfDiscoveryProvider.m: what the delegate knows behind any calls of the
-- provider, the browser and the net services.
use connect_sdk_i_os_core.Prelude.{
  ℕ, String, ◌≡◌, sym, refl, subst, Bool, true, List, [], Option, none, some, some_injective, ◌>>=◌,
  Dict, set_object,
}
use connect_sdk_i_os_core.Description.{ServiceDescription}
use connect_sdk_i_os_core.ZeroConf.{
  ZeroConf, ZeroConfFilter, NetService, ZeroConfEvent, Answer, start_discovery, add_device_filter,
  remove_device_filter, find_service, remove_service, did_not_resolve, did_resolve_address,
  resolved_at, resolved, file_service, describe_service, first_ip4, uuid_of, tell_found,
}
use connect_sdk_i_os_core.ZeroConf.Knowledge.{
  hear_events, IsWatched, Watches, Has-remove_name, find_service-Watches, files,
  remove_service-Watches, resolved-IsWatched,
}

-- The calls of the provider between a start and a stop.
pub data ZeroConfCall : Type 0 where
  starts_again : ZeroConfCall
  adds_filter : ZeroConfFilter → ZeroConfCall
  removes_filter : Option String → ZeroConfCall
  finds_service removes_service : NetService → Bool → ZeroConfCall
  resolves fails_to_resolve : NetService → ZeroConfCall

module _ (command_url : String → ℕ → Option String) (now : ℕ) (string_of : List ℕ → String) where
  unfoldable pub perform : ZeroConfCall → ZeroConf → Option Answer
  perform starts_again z = some (start_discovery z)
  perform (adds_filter f) z = some (add_device_filter f z, [])
  perform (removes_filter k) z = some (remove_device_filter k z, [])
  perform (finds_service s more_coming) z = some (find_service s more_coming z)
  perform (removes_service s more_coming) z = some (remove_service s more_coming z)
  perform (resolves s) z = did_resolve_address command_url now string_of s z
  perform (fails_to_resolve s) z = some (did_not_resolve s z, [])

found_heard :
    (z : ZeroConf) (v : Dict ServiceDescription) (name : String) (d : ServiceDescription)
    → z.finds ≡ true
    → d.friendly_name ≡ some name
    → hear_events (tell_found z d) v ≡ set_object name d v
unfolding hear_events
found_heard z v name d e own = rw e (rw own refl)

module _ (command_url : String → ℕ → Option String) (now : ℕ) (string_of : List ℕ → String) where
  -- A service that was resolved is not being resolved any more, and so it may be filed.
  describes :
      (s : NetService) (z : ZeroConf) (v : Dict ServiceDescription) (address : String) (port : ℕ)
      (uuid : Option String)
      → IsWatched z v
      → Watches v (
          file_service command_url now s.name
            (describe_service command_url now s (resolved s.name z) address port uuid)
            (resolved s.name z))
  unfolding resolved describe_service
  describes s z v address port uuid w =
      let z' : ZeroConf = resolved s.name z in
      let d : ServiceDescription = describe_service command_url now s z' address port uuid in
      subst
        (IsWatched (record z' { discovered_devices = set_object s.name d z'.discovered_devices }))
        (sym (found_heard z' v s.name d w.hears.0 refl))
        (files z' v (resolved-IsWatched z v w s.name) s.name d refl
          (λ k m. (Has-remove_name k s.name z.resolving_devices m).1))

  -- What a call answers keeps the delegate's knowledge.
  abbrev Keeps : Dict ServiceDescription → Option Answer → Type 0
  Keeps v o =
      (z' : ZeroConf) (events : List ZeroConfEvent)
      → o ≡ some (z', events)
      → IsWatched z' (hear_events events v)

  Keeps-some : (v : Dict ServiceDescription) (a : Answer) → Watches v a → Keeps v (some a)
  Keeps-some v a h z' events e = subst (Watches v) (some_injective e) h

  Keeps-none : (v : Dict ServiceDescription) → Keeps v none
  Keeps-none v z' events e = absurd (cc e)

  resolves-Keeps :
      (s : NetService) (z : ZeroConf) (v : Dict ServiceDescription)
      → IsWatched z v
      → Keeps v (did_resolve_address command_url now string_of s z)
  unfolding did_resolve_address hear_events
  resolves-Keeps s z v w = at_address (first_ip4 s.addresses)
    where
      with_uuid :
          (address : String) (port : ℕ) (o : Option (Option String))
          → Keeps v (do
            uuid ← o
            some (
                file_service command_url now s.name
                  (describe_service command_url now s (resolved s.name z) address port uuid)
                  (resolved s.name z)))
      with_uuid address port none = Keeps-none v
      with_uuid address port (some uuid) = Keeps-some v _ (describes s z v address port uuid w)

      at_address :
          (o : Option (String × ℕ))
          → Keeps v (resolved_at command_url now string_of s (resolved s.name z) o)
      at_address none = Keeps-some v _ (resolved-IsWatched z v w s.name)
      at_address (some (address, port)) = with_uuid address port (uuid_of string_of s)

  perform-Keeps :
      (call : ZeroConfCall) (z : ZeroConf) (v : Dict ServiceDescription)
      → IsWatched z v
      → Keeps v (perform command_url now string_of call z)
  unfolding perform start_discovery add_device_filter remove_device_filter did_not_resolve
      hear_events
  perform-Keeps starts_again z v w = Keeps-some v _ (simp w.running w)
  perform-Keeps (adds_filter f) z v w = Keeps-some v _ (record {
    running = w.running;
    hears = w.hears;
    named = w.named;
    known = w.known;
    apart = w.apart;
  })
  perform-Keeps (removes_filter k) z v w = Keeps-some v _ (record {
    running = w.running;
    hears = w.hears;
    named = w.named;
    known = w.known;
    apart = w.apart;
  })
  perform-Keeps (finds_service s more) z v w = Keeps-some v _ (find_service-Watches z v w s more)
  perform-Keeps (removes_service s more) z v w =
      Keeps-some v _ (remove_service-Watches z v w s more)
  perform-Keeps (resolves s) z v w = resolves-Keeps s z v w
  perform-Keeps (fails_to_resolve s) z v w = Keeps-some v _ (resolved-IsWatched z v w s.name)

  -- Whatever call a provider that runs gets, but for a stop, and whatever the system finds, resolves
  -- and loses: where it raises no exception, a delegate that hears everything and knew exactly the
  -- services that were discovered, each under its name, does so behind it, and no service is both
  -- discovered and being resolved.
  pub perform-IsWatched :
      (call : ZeroConfCall) (z z' : ZeroConf) (v : Dict ServiceDescription)
      (events : List ZeroConfEvent)
      → IsWatched z v
      → perform command_url now string_of call z ≡ some (z', events)
      → IsWatched z' (hear_events events v)
  perform-IsWatched call z z' v events w e = perform-Keeps call z v w z' events e
