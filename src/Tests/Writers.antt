-- ===== src/Tests/Writers.antt =====
-- The store's queue at work, and the one order of steps in which a change is lost.
use connect_sdk_i_os_core.Prelude.{◌≡◌, ◌≢◌, refl, true, false, [], arith}
use connect_sdk_i_os_core.Store.{Store, new_store}
use connect_sdk_i_os_core.Store.Writer.{
  Writer, idle, opened, stamp_now, publish_contents, submit_write, take_contents, write_file,
  reset_wait, check_again, write_store_to_disk, Reach, start, later, stamp, publish, submit, take,
  save, release, recheck,
}
use connect_sdk_i_os_core.Store.Writer.Draining.{turn, turns, rounds, IsQuiet, Reach-turns}
use connect_sdk_i_os_core.Store.Writer.Safety.{Reach-IsSaved, turns-saves}
use connect_sdk_i_os_core.Tests.{living_room}

abbrev first_run : Store
first_run = new_store (λ _. living_room) 1 10

-- `store` is called once and returns; its block is in line.
abbrev once : Writer
once = submit_write (publish_contents (stamp_now 11 (opened first_run)))

once-Reach : Reach false first_run once
unfolding opened stamp_now publish_contents new_store
once-Reach = later (later (later start (stamp 11 refl (omega arith))) (publish refl)) (submit refl)

turns-saves_example :
    IsQuiet (turns (rounds once) once)
    × ((turns (rounds once) once).base ≡ once.base)
    × ((turns (rounds once) once).file ≡ once.base.device_store)
unfolding opened stamp_now publish_contents submit_write write_store_to_disk
turns-saves_example = turns-saves once-Reach refl refl

Reach-IsSaved_example : (turns 4 once).file ≡ (turns 4 once).base.device_store
unfolding opened stamp_now publish_contents submit_write write_store_to_disk turns turn
    take_contents write_file reset_wait check_again
Reach-IsSaved_example = Reach-IsSaved (Reach-turns 4 once once-Reach refl) refl (refl, refl) refl

-- A second call sets `_updated`, the first one's block looks again, and a block is put in line that
-- writes before the second call has set `_deviceStore`; the second call then sees it at work.
lost_update :
    (s : Writer) × Reach true first_run s
    × (s.main ≡ idle)
    × IsQuiet s
    × (s.failed ≡ false)
    × (s.file ≢ s.base.device_store)
unfolding opened stamp_now publish_contents submit_write write_store_to_disk take_contents
    write_file reset_wait check_again new_store
lost_update =
    let r0 : Reach true first_run (opened first_run) = start in
    let r1 = later (later (later r0 (stamp 11 refl (omega arith))) (publish refl)) (submit refl) in
    let r2 = later (later (later r1 (take 11 [] refl refl)) (save 11 _ refl)) (release 11 refl) in
    let r3 = later (later r2 (stamp 12 refl (omega arith))) (recheck 11 refl (λ x. cc)) in
    let r4 = later (later (later r3 (take 12 [] refl refl)) (publish refl)) (submit refl) in
    let r5 =
      later (later (later r4 (save 12 _ refl)) (release 12 refl)) (recheck 12 refl (λ x. cc)) in
    (_, r5, refl, (refl, refl), refl, λ e. cc)
