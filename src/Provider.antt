-- ===== src/Provider.antt =====
-- Discovery/DiscoveryProvider.m: the base class of the discovery providers, as an interface: a class
-- is the record of the operations that it overrides. Its instance is SSDPDiscoveryProvider.m.
use connect_sdk_i_os_core.Prelude.{ℕ, ◌≡◌, refl, ap, Bool, true, false, List, [], ◌∷◌}
use connect_sdk_i_os_core.Ssdp.{
  Provider, Filter, SsdpEvent, add_device_filter, remove_device_filter,
}
use connect_sdk_i_os_core.Ssdp

-- The operations of a class of providers with states `S`, parameters of a filter `P` and effects `E`.
-- To start takes the time.
pub record ProviderClass (S P E : Type 0) : Type 0 where
  pub add_filter : S → P → S
  pub remove_filter : S → P → S
  pub is_empty : S → Bool
  pub start : ℕ → S → S × List E
  pub stop : S → S × List E

-- The operations of the base class do nothing.
abbrev pub base_class : {S P E : Type 0} → ProviderClass S P E
base_class = record {
  add_filter = λ s parameters. s;
  remove_filter = λ s parameters. s;
  is_empty = λ s. true;
  start = λ now s. (s, []);
  stop = λ s. (s, []);
}

-- `pauseDiscovery` and `resumeDiscovery`, which call what the class overrides.
unfoldable pub pause : {S P E : Type 0} → ProviderClass S P E → S → S × List E
pause c s = c.stop s

unfoldable pub resume : {S P E : Type 0} → ProviderClass S P E → ℕ → S → S × List E
resume c now s = c.start now s

-- The class that searches by SSDP. It does not override `isEmpty`.
abbrev pub ssdp_class : ProviderClass Provider Filter SsdpEvent
ssdp_class = record {
  add_filter = λ s f. record s { service_filters = add_device_filter s.service_filters f };
  remove_filter =
      λ s f. record s { service_filters = remove_device_filter s.service_filters f.service_id };
  is_empty = λ s. true;
  start = Ssdp.start_discovery;
  stop = Ssdp.stop_discovery;
}

-- A round of requests leaves the provider as it is where nothing is to be killed.
send_search_requests-same :
    (now : ℕ) (p : Provider) (fs : List Filter) → (Ssdp.send_search_requests false now p fs).0 ≡ p
unfolding Ssdp.send_search_requests
send_search_requests-same now p [] = refl
send_search_requests-same now p (f ∷ fs) = send_search_requests-same now p fs

-- Whether the provider ran or not, it runs once it was paused and resumed, searches by the filters it
-- had, and has forgotten what it found.
pub resume-pause :
    (now : ℕ) (p : Provider)
    → let p' = (resume ssdp_class now (pause ssdp_class p).0).0 in
      (p'.is_running ≡ true)
      × (p'.service_filters ≡ p.service_filters)
      × (p'.found_services ≡ [])
      × (p'.hello_devices ≡ [])
unfolding resume pause Ssdp.start_discovery Ssdp.stop_discovery
resume-pause now p = (
  ap (λ (q : Provider). q.is_running) same,
  ap (λ (q : Provider). q.service_filters) same,
  ap (λ (q : Provider). q.found_services) same,
  ap (λ (q : Provider). q.hello_devices) same,
)
  where
    paused : Provider
    paused = record {
      is_running = true;
      refresh_timer = false;
      service_filters = p.service_filters;
      found_services = [];
      hello_devices = [];
    }

    same : (Ssdp.send_search_requests false now paused p.service_filters).0 ≡ paused
    same = send_search_requests-same now paused p.service_filters
