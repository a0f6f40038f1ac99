-- ===== src/Config/Notices.antt =====
-- Services/Config/ServiceConfig.m: when a delegate of a configuration hears of changes.
use connect_sdk_i_os_core.Prelude.{
  ℕ, ◌≡◌, refl, ap, true, false, List, [], ◌∷◌, Option, none, some, if◌then◌else◌, is_set,
}
use connect_sdk_i_os_core.Config.{
  ServiceConfig, service_config_update, add_observers, remove_observers, delegate_change,
  set_delegate, observe, told_of_change,
}

unfoldable pub set_delegates : ServiceConfig → List (Option ℕ) → ServiceConfig
set_delegates c [] = c
set_delegates c (d ∷ ds) = set_delegates (set_delegate c d) ds

-- The delegate is set, and nothing is observed.
abbrev IsDeaf : ServiceConfig → Type 0
IsDeaf c = (is_set c.delegate ≡ true) × (c.has_observers ≡ false)

IsDeaf-change :
    (c : ServiceConfig) (new old : Option ℕ)
    → c.delegate ≡ old
    → IsDeaf c
    → IsDeaf (delegate_change new old c)
unfolding delegate_change add_observers remove_observers
IsDeaf-change c none none e (s, h) = cc
IsDeaf-change c none (some old) e (s, h) = (s, refl)
IsDeaf-change c (some new) none e (s, h) = cc
IsDeaf-change c (some new) (some old) e (s, h) = (refl, h)

set_delegates-IsDeaf :
    (c : ServiceConfig) (ds : List (Option ℕ)) → IsDeaf c → IsDeaf (set_delegates c ds)
unfolding set_delegates set_delegate
set_delegates-IsDeaf c [] h = h
set_delegates-IsDeaf c (d ∷ ds) h =
    set_delegates-IsDeaf (set_delegate c d) ds (IsDeaf-change c d c.delegate refl h)

cleared-IsDeaf :
    (c : ServiceConfig) (old : Option ℕ)
    → c.delegate ≡ old
    → is_set old ≡ true
    → IsDeaf (delegate_change none old c)
unfolding delegate_change remove_observers
cleared-IsDeaf c none e h = cc
cleared-IsDeaf c (some old) e h = (ap is_set e, refl)

-- A first delegate is told of every change.
pub observe-set_delegate :
    (c : ServiceConfig) (delegate : ℕ)
    → c.delegate ≡ none
    → observe (set_delegate c (some delegate)) ≡ service_config_update delegate ∷ []
unfolding observe set_delegate add_observers
observe-set_delegate c delegate e = go c.delegate e
  where
    go :
        (old : Option ℕ)
        → old ≡ none
        → observe (delegate_change (some delegate) old c) ≡ service_config_update delegate ∷ []
    go none p = unfold delegate_change in refl
    go (some old) p = cc

-- A configuration whose delegate was set and then taken away tells nobody of a change again, whatever
-- delegates are set later, while the first one lives.
pub set_delegates-silent :
    (c : ServiceConfig) (delegates : List (Option ℕ))
    → is_set c.delegate ≡ true
    → observe (set_delegates (set_delegate c none) delegates) ≡ []
unfolding observe set_delegate
set_delegates-silent c delegates h =
    let left = set_delegates (delegate_change none c.delegate c) delegates in
    let deaf =
      set_delegates-IsDeaf (delegate_change none c.delegate c) delegates
        (cleared-IsDeaf c c.delegate refl h) in
    ap (λ b. if b then told_of_change left.delegate else []) (deaf.1)
