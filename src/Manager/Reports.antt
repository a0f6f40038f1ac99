-- ===== src/Manager/Reports.antt =====
-- Discovery/DiscoveryProviderDelegate.h: what a provider tells the manager, and the lists of devices
-- behind any sequence of such reports.
use connect_sdk_i_os_core.Prelude.{
  ℕ, String, ◌≡◌, refl, List, [], ◌∷◌, ◌++◌, Option, some, ◌>>=◌, ap, ◌∙◌,
}
use connect_sdk_i_os_core.Description.{ServiceDescription}
use connect_sdk_i_os_core.Service.{DeviceService}
use connect_sdk_i_os_core.Manager.{Manager, ManagerEvent, Outcome}
use connect_sdk_i_os_core.Manager.Discovery.{did_find_service, did_lose_service}
use connect_sdk_i_os_core.Manager.Discovery.Consistency.{IsConsistent, Settles}
use connect_sdk_i_os_core.Manager.Discovery.Finding.{IsReported, did_find_service-IsConsistent}
use connect_sdk_i_os_core.Manager.Discovery.Losing.{did_lose_service-IsConsistent}

-- The messages of the protocol. With a service that is found stand the answers of the device store,
-- the device and the configuration, and the time. An error stands as a number.
pub data ProviderMessage : Type 0 where
  reports_found : ServiceDescription → Option ℕ → Option (Option String) → ℕ → ProviderMessage
  reports_lost : ServiceDescription → ProviderMessage
  reports_error : ℕ → ProviderMessage

-- A service that is found has an address and the id of a registered service, and a device that the
-- store answers has no services.
abbrev pub IsSound : Manager → ProviderMessage → Type 0
IsSound m (reports_found d stored config now) = IsReported m d stored
IsSound m (reports_lost d) = Unit
IsSound m (reports_error error) = Unit

-- The events of an earlier message stand before those of the later.
abbrev pub told_before : List ManagerEvent → Manager × List ManagerEvent → Outcome
told_before events (m, later) = some (m, events ++ later)

module _ (instantiate : String → Option String → DeviceService) where
  -- The handlers of the manager, by message. An error is only logged.
  unfoldable pub handle_report : Manager → ProviderMessage → Outcome
  handle_report m (reports_found d stored config now) =
      did_find_service instantiate m d stored config now
  handle_report m (reports_lost d) = did_lose_service m d
  handle_report m (reports_error error) = some (m, [])

  unfoldable pub handle_reports : Manager → List ProviderMessage → Outcome
  handle_reports m [] = some (m, [])
  handle_reports m (message ∷ messages) = do
    (m', events) ← handle_report m message
    handle_reports m' messages >>= told_before events

  -- Each message is sound when it comes.
  abbrev pub AreSound : Manager → List ProviderMessage → Type 0
  AreSound m [] = Unit
  AreSound m (message ∷ messages) =
      IsSound m message
      × ((m' : Manager) (events : List ManagerEvent)
          → handle_report m message ≡ some (m', events)
          → AreSound m' messages)

  pub handle_report-IsConsistent :
      (m : Manager) (message : ProviderMessage)
      → IsConsistent m
      → IsSound m message
      → Settles (handle_report m message)
  unfolding handle_report
  handle_report-IsConsistent m (reports_found d stored config now) c h =
      did_find_service-IsConsistent instantiate m d stored now config c h
  handle_report-IsConsistent m (reports_lost d) c h = did_lose_service-IsConsistent m d c
  handle_report-IsConsistent m (reports_error error) c h = (m, [], refl, c)

  pub handle_reports-cons :
      (message : ProviderMessage) (m : Manager) (messages : List ProviderMessage) (m' : Manager)
      (events : List ManagerEvent)
      → handle_report m message ≡ some (m', events)
      → handle_reports m (message ∷ messages) ≡ (handle_reports m' messages >>= told_before events)
  unfolding handle_reports
  handle_reports-cons message m messages m' events e = rw e refl

  -- Whatever the providers report, in any order, no exception is raised and consistent lists of
  -- devices stay consistent, if each report is sound when it comes.
  pub handle_reports-IsConsistent :
      (m : Manager) (messages : List ProviderMessage)
      → IsConsistent m
      → AreSound m messages
      → Settles (handle_reports m messages)
  unfolding handle_reports
  handle_reports-IsConsistent m [] c h = (m, [], refl, c)
  handle_reports-IsConsistent m (message ∷ messages) c (sound, rest) =
      let (m', events, e, c') = handle_report-IsConsistent m message c sound in
      let (m'', later, f, c'') = handle_reports-IsConsistent m' messages c' (rest m' events e) in
      (
        m'',
        events ++ later,
        handle_reports-cons message m messages m' events e ∙ ap (λ o. o >>= told_before events) f,
        c'',
      )
