-- ===== src/Helpers.antt =====
-- Helpers/AppStateChangeNotifier.m and Helpers/SubscriptionDeduplicator.m. A block is a number, and a
-- state too: two states that `isEqual:` calls equal are one number.
use connect_sdk_i_os_core.Prelude.{
  ℕ, zero, suc, ◌-◌, ◌≡◌, ◌∙◌, sym, ap, subst, refl, Bool, true, false, not, ◌||◌, List, [], ◌∷◌,
  ◌++◌, Option, none, some, if◌then◌else◌, ◌==◌, Bool-cases, inl, inr, arith,
}

-- A handle is whether it is set. The observers are those that the notification center holds for the
-- object; each of them runs the block.
pub record AppStateChangeNotifier : Type 0 where
  pub did_background_block : Option ℕ
  pub did_foreground_block : Option ℕ
  pub background_handle : Bool
  pub foreground_handle : Bool
  pub background_observers : ℕ
  pub foreground_observers : ℕ

unfoldable pub start_listening : AppStateChangeNotifier → AppStateChangeNotifier
start_listening n = if n.background_handle || n.foreground_handle then n else record n {
  background_handle = true;
  foreground_handle = true;
  background_observers = suc n.background_observers;
  foreground_observers = suc n.foreground_observers;
}

-- `removeObserver:` of a handle, or of nil, which does nothing.
abbrev pub remove_observer : Bool → ℕ → ℕ
remove_observer handle observers = if handle then observers - 1 else observers

unfoldable pub stop_listening : AppStateChangeNotifier → AppStateChangeNotifier
stop_listening n = record n {
  background_handle = false;
  foreground_handle = false;
  background_observers = remove_observer n.background_handle n.background_observers;
  foreground_observers = remove_observer n.foreground_handle n.foreground_observers;
}

abbrev pub run_block : Option ℕ → List ℕ
run_block none = []
run_block (some block) = block ∷ []

unfoldable pub run_for_each : ℕ → Option ℕ → List ℕ
run_for_each zero block = []
run_for_each (suc k) block = run_block block ++ run_for_each k block

-- The blocks that run when the app enters the background, and the foreground.
unfoldable pub on_background : AppStateChangeNotifier → List ℕ
on_background n = run_for_each n.background_observers n.did_background_block

unfoldable pub on_foreground : AppStateChangeNotifier → List ℕ
on_foreground n = run_for_each n.foreground_observers n.did_foreground_block

-- A call, by whether it starts to listen.
unfoldable pub perform_listening : AppStateChangeNotifier → Bool → AppStateChangeNotifier
perform_listening n true = start_listening n
perform_listening n false = stop_listening n

unfoldable pub perform_calls : AppStateChangeNotifier → List Bool → AppStateChangeNotifier
perform_calls n [] = n
perform_calls n (c ∷ cs) = perform_calls (perform_listening n c) cs

-- The notifier listens, with one observer of each kind, or it does not, with none.
pub record Listens (b : Bool) (n : AppStateChangeNotifier) : Type 0 where
  pub background : n.background_handle ≡ b
  pub foreground : n.foreground_handle ≡ b
  pub one_background : n.background_observers ≡ (if b then 1 else 0)
  pub one_foreground : n.foreground_observers ≡ (if b then 1 else 0)

-- The notifier that listens or not, with the blocks of `n`.
abbrev exactly : AppStateChangeNotifier → Bool → AppStateChangeNotifier
exactly n b = record n {
  background_handle = b;
  foreground_handle = b;
  background_observers = if b then 1 else 0;
  foreground_observers = if b then 1 else 0;
}

perform_listening-exactly :
    (n : AppStateChangeNotifier) (b c : Bool) → Listens c (perform_listening (exactly n b) c)
unfolding perform_listening start_listening stop_listening
perform_listening-exactly n true true = record {
  background = refl;
  foreground = refl;
  one_background = refl;
  one_foreground = refl;
}
perform_listening-exactly n true false = record {
  background = refl;
  foreground = refl;
  one_background = refl;
  one_foreground = refl;
}
perform_listening-exactly n false true = record {
  background = refl;
  foreground = refl;
  one_background = refl;
  one_foreground = refl;
}
perform_listening-exactly n false false = record {
  background = refl;
  foreground = refl;
  one_background = refl;
  one_foreground = refl;
}

exactly-Listens : (n : AppStateChangeNotifier) (b : Bool) → Listens b n → exactly n b ≡ n
exactly-Listens n b h = λ i. record n {
  background_handle = sym h.background i;
  foreground_handle = sym h.foreground i;
  background_observers = sym h.one_background i;
  foreground_observers = sym h.one_foreground i;
}

perform_listening-Listens :
    (n : AppStateChangeNotifier) (b c : Bool) → Listens b n → Listens c (perform_listening n c)
perform_listening-Listens n b c h =
    subst (λ m. Listens c (perform_listening m c)) (exactly-Listens n b h)
      (perform_listening-exactly n b c)

once :
    (b : Bool) (block : Option ℕ)
    → run_for_each (if b then 1 else 0) block ≡ (if b then run_block block else [])
unfolding run_for_each
once true none = refl
once true (some block) = refl
once false block = refl

-- The last call, or what was before the first.
abbrev pub last_call : Bool → List Bool → Bool
last_call b [] = b
last_call b (c ∷ cs) = last_call c cs

perform_calls-Listens :
    (n : AppStateChangeNotifier) (b : Bool) (cs : List Bool)
    → Listens b n
    → Listens (last_call b cs) (perform_calls n cs)
unfolding perform_calls
perform_calls-Listens n b [] h = h
perform_calls-Listens n b (c ∷ cs) h =
    perform_calls-Listens (perform_listening n c) c cs (perform_listening-Listens n b c h)

-- Behind any number of calls to start or stop, a change to the background runs the block once if the
-- last call was to start, and else not at all; a change to the foreground does too.
pub on_background-perform_calls :
    (n : AppStateChangeNotifier) (b : Bool) (calls : List Bool)
    → Listens b n
    → let left = perform_calls n calls in
      (on_background left ≡ (if last_call b calls then run_block left.did_background_block else []))
      × (on_foreground left
          ≡ (if last_call b calls then run_block left.did_foreground_block else []))
unfolding on_background on_foreground
on_background-perform_calls n b calls h =
    let l = perform_calls-Listens n b calls h in
    (
      ap (λ k. run_for_each k (perform_calls n calls).did_background_block) l.one_background
          ∙ once (last_call b calls) (perform_calls n calls).did_background_block,
      ap (λ k. run_for_each k (perform_calls n calls).did_foreground_block) l.one_foreground
          ∙ once (last_call b calls) (perform_calls n calls).did_foreground_block,
    )

-- `runBlock:ifStateDidChangeTo:`: whether the block runs, and the state that the new object saves.
unfoldable pub run_if_changed : Option ℕ → ℕ → Bool × Option ℕ
run_if_changed none state = (true, some state)
run_if_changed (some saved) state =
    if state == saved then (false, some saved) else (true, some state)

-- For which of a sequence of states the block runs.
unfoldable pub runs_for : Option ℕ → List ℕ → List Bool
runs_for saved [] = []
runs_for saved (state ∷ states) =
    let (ran, next) = run_if_changed saved state in ran ∷ runs_for next states

-- For which of them the state differs from the one before.
abbrev pub differs_from : Option ℕ → ℕ → Bool
differs_from none state = true
differs_from (some before) state = not (state == before)

unfoldable pub changes : Option ℕ → List ℕ → List Bool
changes before [] = []
changes before (state ∷ states) = differs_from before state ∷ changes (some state) states

-- The block runs for exactly the states that differ from the state before them.
pub runs_for-changes :
    (saved : Option ℕ) (states : List ℕ) → runs_for saved states ≡ changes saved states
unfolding runs_for changes run_if_changed
runs_for-changes saved [] = refl
runs_for-changes none (state ∷ states) = ap (λ l. true ∷ l) (runs_for-changes (some state) states)
runs_for-changes (some saved) (state ∷ states) = elim (Bool-cases (state == saved)) [
  | inl t ↦
      let e : state ≡ saved = ground arith in
      rw t (
        ap (λ l. false ∷ l)
          (runs_for-changes (some saved) states ∙ ap (λ z. changes (some z) states) (sym e)))
  | inr t ↦ rw t (ap (λ l. true ∷ l) (runs_for-changes (some state) states))
]
