-- ===== src/Store/Writer/Draining.antt =====
-- Devices/DefaultConnectableDeviceStore.m: what the queue does when it is left to itself and meets
-- no error, and how long.
use connect_sdk_i_os_core.Prelude.{
  ℕ, zero, suc, ◌+◌, ◌≡◌, refl, sym, ◌∙◌, subst, ◌⊎◌, List-cases, false, List, [], ◌∷◌, ◌++◌,
  if◌then◌else◌, ◌==◌, arith, Bool-cases, inl, inr,
}
use connect_sdk_i_os_core.Store.{Store}
use connect_sdk_i_os_core.Store.Writer.{
  idle, Job, resting, holding, saved, released, Writer, write_store_to_disk, take_contents,
  write_file, reset_wait, check_again, take, save, release, recheck, Reach, later,
}

abbrev pub take_next : List ℕ → Writer → Writer
take_next [] s = s
take_next (l ∷ rest) s = take_contents l rest s

abbrev pub go_on : Job → Writer → Writer
go_on resting s = take_next s.queue s
go_on (holding l f) s = write_file l f s
go_on (saved l) s = reset_wait l s
go_on (released l) s = check_again l s

-- The next step of the queue, where no error comes; at the end it stays where it is.
unfoldable pub turn : Writer → Writer
turn s = go_on s.job s

unfoldable pub turns : ℕ → Writer → Writer
turns zero s = s
turns (suc n) s = turns n (turn s)

-- How many steps a block takes from its start, those of the block that it asks for included.
abbrev pub cost : ℕ → ℕ → ℕ
cost u l = if l == u then 4 else 8

unfoldable pub cost_all : ℕ → List ℕ → ℕ
cost_all u [] = 0
cost_all u (l ∷ ls) = cost u l + cost_all u ls

abbrev pub cost_left : ℕ → Job → ℕ
cost_left u resting = 0
cost_left u (holding l f) = if l == u then 3 else 7
cost_left u (saved l) = if l == u then 2 else 6
cost_left u (released l) = if l == u then 1 else 5

unfoldable pub rounds : Writer → ℕ
rounds s = cost_left s.base.updated s.job + cost_all s.base.updated s.queue

cost_all-append : (u : ℕ) (ls : List ℕ) → cost_all u (ls ++ (u ∷ [])) ≡ cost_all u ls + 4
unfolding cost_all
cost_all-append u [] = ground arith
cost_all-append u (l ∷ ls) = ground (arith, cost_all-append u ls)

-- Nothing is at work or in line.
abbrev pub IsQuiet : Writer → Type 0
IsQuiet s = (s.job ≡ resting) × (s.queue ≡ [])

module _ (s : Writer) where
  rounds-check_again : (l : ℕ) → s.job ≡ released l → suc (rounds (check_again l s)) ≡ rounds s
  unfolding rounds check_again write_store_to_disk
  rounds-check_again l e = elim (Bool-cases (l == s.base.updated)) [
    | inl x ↦ rw (x, e) (ground (arith, x))
    | inr x ↦ rw (x, e) (ground (arith, x, cost_all-append s.base.updated s.queue))
  ]

  rounds-go_on : (j : Job) → s.job ≡ j → IsQuiet s ⊎ (suc (rounds (go_on j s)) ≡ rounds s)
  rounds-go_on resting e = elim (List-cases s.queue) [
    | inl q ↦ inl (e, q)
    | inr (l, rest, q) ↦ inr (unfold rounds cost_all take_contents in rw (q, e) (ground arith))
  ]
  rounds-go_on (holding l f) e = inr (unfold rounds write_file in rw e (ground arith))
  rounds-go_on (saved l) e = inr (unfold rounds reset_wait in rw e (ground arith))
  rounds-go_on (released l) e = inr (rounds-check_again l e)

  rounds-turn : IsQuiet s ⊎ (suc (rounds (turn s)) ≡ rounds s)
  unfolding turn
  rounds-turn = rounds-go_on s.job refl

  base-go_on : (j : Job) → ((go_on j s).base ≡ s.base) × ((go_on j s).main ≡ s.main)
  unfolding take_contents write_file reset_wait check_again write_store_to_disk
  base-go_on resting = elim (List-cases s.queue) [
    | inl q ↦ rw q (refl, refl)
    | inr (l, rest, q) ↦ rw q (refl, refl)
  ]
  base-go_on (holding l f) = (refl, refl)
  base-go_on (saved l) = (refl, refl)
  base-go_on (released l) = elim (Bool-cases (l == s.base.updated)) [
    | inl x ↦ rw x (refl, refl)
    | inr x ↦ rw x (refl, refl)
  ]

  pub base-turn : ((turn s).base ≡ s.base) × ((turn s).main ≡ s.main)
  unfolding turn
  base-turn = base-go_on s.job

  Reach-go_on :
      {b : Store} (j : Job)
      → s.job ≡ j
      → Reach false b s
      → s.main ≡ idle
      → Reach false b (go_on j s)
  Reach-go_on {b} resting e r i = elim (List-cases s.queue) [
    | inl q ↦ subst (λ (ls : List ℕ). Reach false b (take_next ls s)) (sym q) r
    | inr (l, rest, q) ↦
        subst (λ (ls : List ℕ). Reach false b (take_next ls s)) (sym q) (later r (take l rest e q))
  ]
  Reach-go_on (holding l f) e r i = later r (save l f e)
  Reach-go_on (saved l) e r i = later r (release l e)
  Reach-go_on (released l) e r i = later r (recheck l e (λ _ _ x. cc))

  -- The turns of the queue are steps that it may take.
  pub Reach-turn : {b : Store} → Reach false b s → s.main ≡ idle → Reach false b (turn s)
  unfolding turn
  Reach-turn r i = Reach-go_on s.job refl r i

-- It comes to an end, after the rounds counted.
pub turns-IsQuiet : (n : ℕ) (s : Writer) → rounds s ≡ n → IsQuiet (turns n s)
unfolding turns
turns-IsQuiet zero s z = elim (rounds-turn s) [ inl q ↦ q | inr e ↦ absurd (omega (arith, z, e)) ]
turns-IsQuiet (suc n) s z = elim (rounds-turn s) [
  | inl q ↦ absurd (unfold rounds cost_all in ground (arith, q.0, q.1, z))
  | inr e ↦ turns-IsQuiet n (turn s) (omega (arith, z, e))
]

pub base-turns : (n : ℕ) (s : Writer) → ((turns n s).base ≡ s.base) × ((turns n s).main ≡ s.main)
unfolding turns
base-turns zero s = (refl, refl)
base-turns (suc n) s =
    let (b, m) = base-turns n (turn s) in let (b', m') = base-turn s in (b ∙ b', m ∙ m')

pub Reach-turns :
    {b : Store} (n : ℕ) (s : Writer) → Reach false b s → s.main ≡ idle → Reach false b (turns n s)
unfolding turns
Reach-turns zero s r i = r
Reach-turns (suc n) s r i = Reach-turns n (turn s) (Reach-turn s r i) ((base-turn s).1 ∙ i)
