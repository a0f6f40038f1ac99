-- ===== src/Store/Writer/Invariant.antt =====
-- Devices/DefaultConnectableDeviceStore.m: what every step of the caller and the queue keeps.
use connect_sdk_i_os_core.Prelude.{
  ℕ, ◌<◌, ◌≤◌, ◌≡◌, ◌≢◌, subst, sym, ◌∙◌, ◌⊎◌, inl, inr, refl, Bool, true, false, ◌||◌, List, [],
  ◌∷◌, ◌++◌, Option, ◌==◌, arith, Bool-cases,
}
use connect_sdk_i_os_core.Store.{Store, StoreFile}
use connect_sdk_i_os_core.Store.Writer.{
  Main, idle, stamped, published, Job, resting, holding, saved, released, Writer, opened, stamp_now,
  publish_contents, write_store_to_disk, submit_write, take_contents, give_up, write_file,
  reset_wait, check_again, Step, edit, stamp, publish, submit, take, fail, save, release, recheck,
  Reach, start, later,
}

-- A time read by a block, against `_updated`: no later, and earlier while a new one is being stored.
abbrev pub IsRead : Main → ℕ → ℕ → Type 0
IsRead idle u l = l ≤ u
IsRead stamped u l = l < u
IsRead published u l = l ≤ u

abbrev pub AreRead : Main → ℕ → List ℕ → Type 0
AreRead m u [] = Unit
AreRead m u (l ∷ ls) = IsRead m u l × AreRead m u ls

-- What a block holds, or has written, is the newest unless it is about to find that it is not.
abbrev pub IsFair : Writer → Job → Type 0
IsFair s resting = Unit
IsFair s (holding l f) =
    IsRead s.main s.base.updated l × (l ≡ s.base.updated → f ≡ s.base.device_store)
IsFair s (saved l) =
    IsRead s.main s.base.updated l
    × (l ≡ s.base.updated → s.file ≡ s.base.device_store)
    × (s.failed ≡ false)
IsFair s (released l) =
    IsRead s.main s.base.updated l
    × (l ≡ s.base.updated → s.file ≡ s.base.device_store)
    × (s.failed ≡ false)

abbrev pub any_left : List ℕ → Bool
any_left [] = false
any_left (l ∷ ls) = true

-- The block at work has yet to reset `_waitToWrite`.
abbrev pub is_working : Job → Bool
is_working resting = false
is_working (holding l f) = true
is_working (saved l) = true
is_working (released l) = false

abbrev pub is_at_work : Job → Bool
is_at_work resting = false
is_at_work (holding l f) = true
is_at_work (saved l) = true
is_at_work (released l) = true

abbrev pub is_pending : Writer → Bool
is_pending s = any_left s.queue || is_at_work s.job

pub record Inv (s : Writer) : Type 0 where
  pub read : AreRead s.main s.base.updated s.queue
  pub fair : IsFair s s.job
  pub waits : s.wait_to_write ≡ true → (any_left s.queue || is_working s.job) ≡ true
  pub covered :
      s.main ≡ idle → (is_pending s ≡ true) ⊎ ((s.file ≡ s.base.device_store) ⊎ (s.failed ≡ true))

Inv-opened : (b : Store) → Inv (opened b)
unfolding opened
Inv-opened b = record { read = tt; fair = tt; waits = λ e. cc; covered = λ e. inr (inl refl) }

AreRead-stamp : (u now : ℕ) (ls : List ℕ) → u < now → AreRead idle u ls → AreRead stamped now ls
AreRead-stamp u now [] lt h = tt
AreRead-stamp u now (l ∷ ls) lt (h, hs) = (omega arith, AreRead-stamp u now ls lt hs)

AreRead-publish : (u : ℕ) (ls : List ℕ) → AreRead stamped u ls → AreRead published u ls
AreRead-publish u [] h = tt
AreRead-publish u (l ∷ ls) (h, hs) = (omega arith, AreRead-publish u ls hs)

AreRead-submit : (u : ℕ) (ls : List ℕ) → AreRead published u ls → AreRead idle u ls
AreRead-submit u [] h = tt
AreRead-submit u (l ∷ ls) (h, hs) = (h, AreRead-submit u ls hs)

AreRead-append :
    (m : Main) (u : ℕ) (ls : List ℕ) → m ≢ stamped → AreRead m u ls → AreRead m u (ls ++ (u ∷ []))
AreRead-append idle u [] ne h = (omega arith, tt)
AreRead-append stamped u [] ne h = absurd (ne refl)
AreRead-append published u [] ne h = (omega arith, tt)
AreRead-append m u (l ∷ ls) ne (h, hs) = (h, AreRead-append m u ls ne hs)

any_left-append : (u : ℕ) (ls : List ℕ) → any_left (ls ++ (u ∷ [])) ≡ true
any_left-append u [] = refl
any_left-append u (l ∷ ls) = refl

module _ (s : Writer) (inv : Inv s) where
  open inv use {read, fair, waits, covered}

  read_at : (m : Main) → s.main ≡ m → AreRead m s.base.updated s.queue
  read_at m e = subst (λ x. AreRead x s.base.updated s.queue) e read

  IsFair-at : (j : Job) → s.job ≡ j → IsFair s j
  IsFair-at j e = subst (IsFair s) e fair

  Inv-stamp : (now : ℕ) → s.main ≡ idle → s.base.updated < now → Inv (stamp_now now s)
  unfolding stamp_now
  Inv-stamp now e lt = record {
    read = AreRead-stamp s.base.updated now s.queue lt (read_at idle e);
    fair = ground (arith, fair, e);
    waits = waits;
    covered = λ x. cc;
  }

  Inv-publish : s.main ≡ stamped → Inv (publish_contents s)
  unfolding publish_contents
  Inv-publish e = record {
    read = AreRead-publish s.base.updated s.queue (read_at stamped e);
    fair = ground (arith, fair, e);
    waits = waits;
    covered = λ x. cc;
  }

  Inv-take :
      (l : ℕ) (rest : List ℕ) → s.job ≡ resting → s.queue ≡ l ∷ rest → Inv (take_contents l rest s)
  unfolding take_contents
  Inv-take l rest e q =
      let (h, hs) = subst (AreRead s.main s.base.updated) q read in
      record {
        read = hs;
        fair = (h, λ _. refl);
        waits = λ _. ground arith;
        covered = λ _. inl (ground arith);
      }

  Inv-fail : (l : ℕ) (f : Option StoreFile) → s.job ≡ holding l f → Inv (give_up s)
  unfolding give_up
  Inv-fail l f e = record { read = read; fair = tt; waits = λ x. cc; covered = λ _. inr (inr refl) }

  Inv-save : (l : ℕ) (f : Option StoreFile) → s.job ≡ holding l f → Inv (write_file l f s)
  unfolding write_file
  Inv-save l f e =
      let (h, same) = IsFair-at (holding l f) e in
      record {
        read = read;
        fair = (h, same, refl);
        waits = λ _. ground arith;
        covered = λ _. inl (ground arith);
      }

  Inv-release : (l : ℕ) → s.job ≡ saved l → Inv (reset_wait l s)
  unfolding reset_wait
  Inv-release l e = record {
    read = read;
    fair = IsFair-at (saved l) e;
    waits = λ x. cc;
    covered = λ _. inl (ground arith);
  }

  Inv-edit :
      (b : Store)
      → s.main ≡ idle
      → b.updated ≡ s.base.updated
      → b.device_store ≡ s.base.device_store
      → Inv (record s { base = b })
  Inv-edit b e u d = record {
    read = rw u read;
    fair = fair_edited s.job fair;
    waits = waits;
    covered = λ x.
        subst (λ c. (is_pending s ≡ true) ⊎ ((s.file ≡ c) ⊎ (s.failed ≡ true))) (sym d) (covered x);
  }
    where
      fair_edited : (j : Job) → IsFair s j → IsFair (record s { base = b }) j
      fair_edited resting h = tt
      fair_edited (holding l f) (h, same) = (rw u h, λ e. same (e ∙ u) ∙ sym d)
      fair_edited (saved l) (h, same, ok) = (rw u h, (λ e. same (e ∙ u) ∙ sym d), ok)
      fair_edited (released l) (h, same, ok) = (rw u h, (λ e. same (e ∙ u) ∙ sym d), ok)

  Inv-submit : s.main ≡ published → Inv (submit_write s)
  unfolding submit_write write_store_to_disk
  Inv-submit e = elim (Bool-cases s.wait_to_write) [
    | inl w ↦ rw w record {
      read = reads;
      fair = ground (arith, fair, e);
      waits = λ _. waits w;
      covered = λ _. inl (ground (arith, waits w));
    }
    | inr w ↦ rw w record {
      read = AreRead-append idle s.base.updated s.queue (λ x. cc) reads;
      fair = ground (arith, fair, e);
      waits = λ _. ground (arith, any_left-append s.base.updated s.queue);
      covered = λ _. inl (ground (arith, any_left-append s.base.updated s.queue));
    }
  ]
    where
      reads : AreRead idle s.base.updated s.queue
      reads = AreRead-submit s.base.updated s.queue (read_at published e)

  Inv-recheck :
      (l : ℕ) → s.job ≡ released l → (l ≢ s.base.updated → s.main ≢ stamped) → Inv (check_again l s)
  unfolding check_again write_store_to_disk
  Inv-recheck l e calm = elim (Bool-cases (l == s.base.updated)) [
    | inl x ↦ rw x record {
      read = read;
      fair = tt;
      waits = λ w. ground (arith, waits w);
      covered = λ _. inr (inl ((IsFair-at (released l) e).1 (ground arith)));
    }
    | inr x ↦ rw x record {
      read = AreRead-append s.main s.base.updated s.queue (calm (ground arith)) read;
      fair = tt;
      waits = λ _. ground (arith, any_left-append s.base.updated s.queue);
      covered = λ _. inl (ground (arith, any_left-append s.base.updated s.queue));
    }
  ]

-- Every step keeps the invariant, the errors included.
pub Step-Inv : {s t : Writer} → Step false s t → Inv s → Inv t
Step-Inv {s} (edit b e u d) inv = Inv-edit s inv b e u d
Step-Inv {s} (stamp now e lt) inv = Inv-stamp s inv now e lt
Step-Inv {s} (publish e) inv = Inv-publish s inv e
Step-Inv {s} (submit e) inv = Inv-submit s inv e
Step-Inv {s} (take l rest e q) inv = Inv-take s inv l rest e q
Step-Inv {s} (fail l f e) inv = Inv-fail s inv l f e
Step-Inv {s} (save l f e) inv = Inv-save s inv l f e
Step-Inv {s} (release l e) inv = Inv-release s inv l e
Step-Inv {s} (recheck l e calm) inv = Inv-recheck s inv l e (calm refl)

pub Reach-Inv : {b : Store} {s : Writer} → Reach false b s → Inv s
Reach-Inv {b} start = Inv-opened b
Reach-Inv (later r st) = Step-Inv st (Reach-Inv r)
