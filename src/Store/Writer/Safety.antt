-- ===== src/Store/Writer/Safety.antt =====
-- Devices/DefaultConnectableDeviceStore.m: that what is stored reaches the file.
use connect_sdk_i_os_core.Prelude.{
  ℕ, zero, suc, ◌≡◌, refl, ◌∙◌, ap, inl, inr, List-cases, Bool, true, false, not, ◌||◌, [], Option,
  arith,
}
use connect_sdk_i_os_core.Store.{Store, StoreFile, compose_file}
use connect_sdk_i_os_core.Store.Writer.{
  idle, Job, resting, holding, saved, released, Writer, write_store_to_disk, take_contents,
  write_file, reset_wait, check_again, Reach, stamp_now, publish_contents,
}
use connect_sdk_i_os_core.Store.Writer.Invariant.{Reach-Inv, is_pending, IsFair}
use connect_sdk_i_os_core.Store.Writer.Draining.{
  turn, turns, go_on, rounds, IsQuiet, turns-IsQuiet, base-turns, Reach-turn, Reach-turns,
  base-turn,
}

-- Where `store` has returned and the queue has come to rest, the file has what was last stored,
-- unless the last write failed.
pub Reach-IsSaved :
    {b : Store} {s : Writer}
    → Reach false b s
    → s.main ≡ idle
    → IsQuiet s
    → s.failed ≡ false
    → s.file ≡ s.base.device_store
Reach-IsSaved {s} r i (e, q) ok = elim ((Reach-Inv r).covered i) [
  | inl p ↦ ground (arith, p, e, q)
  | inr (inl same) ↦ same
  | inr (inr bad) ↦ cc
]

-- Something is about to be written, or the last write went well.
abbrev pub is_hopeful : Writer → Bool
is_hopeful s = is_pending s || not s.failed

is_hopeful-go_on :
    (s : Writer) (j : Job)
    → s.job ≡ j
    → IsFair s j
    → is_hopeful s ≡ true
    → is_hopeful (go_on j s) ≡ true
unfolding take_contents write_file reset_wait check_again write_store_to_disk
is_hopeful-go_on s resting e fair h = elim (List-cases s.queue) [
  | inl q ↦ ground (arith, q, e, h)
  | inr (l, rest, q) ↦ rw q (ground arith)
]
is_hopeful-go_on s (holding l f) e fair h = ground arith
is_hopeful-go_on s (saved l) e fair h = ground arith
is_hopeful-go_on s (released l) e (_, _, ok) h = ground (arith, ok)

is_hopeful-turns :
    {b : Store} (n : ℕ) (s : Writer)
    → Reach false b s
    → s.main ≡ idle
    → is_hopeful s ≡ true
    → is_hopeful (turns n s) ≡ true
unfolding turns turn
is_hopeful-turns zero s r i h = h
is_hopeful-turns (suc n) s r i h =
    is_hopeful-turns n (turn s) (Reach-turn s r i) ((base-turn s).1 ∙ i)
      (is_hopeful-go_on s s.job refl (Reach-Inv r).fair h)

-- Once the caller rests and no error comes, what was last stored reaches the file in a counted
-- number of steps, where something is still to be written or the last write went well.
pub turns-saves :
    {b : Store} {s : Writer}
    → Reach false b s
    → s.main ≡ idle
    → is_hopeful s ≡ true
    → IsQuiet (turns (rounds s) s)
      × ((turns (rounds s) s).base ≡ s.base)
      × ((turns (rounds s) s).file ≡ s.base.device_store)
turns-saves {s} r i h =
    let quiet = turns-IsQuiet (rounds s) s refl in
    let (b, m) = base-turns (rounds s) s in
    let hope = is_hopeful-turns (rounds s) s r i h in
    let ok : (turns (rounds s) s).failed ≡ false = not_failed (turns (rounds s) s) quiet hope in
    (quiet, b, Reach-IsSaved (Reach-turns (rounds s) s r i) (m ∙ i) quiet ok ∙ ap device_store_of b)
  where
    device_store_of : Store → Option StoreFile
    device_store_of c = c.device_store

    not_failed :
        (t : Writer) → (t.job ≡ resting) × (t.queue ≡ []) → is_hopeful t ≡ true → t.failed ≡ false
    not_failed t (e, q) x = ground (arith, e, q, x)

-- What the caller's two assignments leave together is what `store` composes.
publish_contents-stamp_now :
    (now : ℕ) (s : Writer) → (publish_contents (stamp_now now s)).base ≡ compose_file now s.base
unfolding publish_contents stamp_now compose_file
publish_contents-stamp_now now s = refl
