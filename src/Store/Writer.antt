-- ===== src/Store/Writer.antt =====
-- Devices/DefaultConnectableDeviceStore.m, `writeStoreToDisk`: how the contents that `store` leaves
-- reach the file. Two threads take turns in any order: the caller of `store`, which is cut where it
-- writes what the other reads, and the serial queue, with one block at work and others in line. A
-- block is named by its `lastUpdated`. Any two calls of `store` read different times.
pub mod Invariant
pub mod Draining
pub mod Safety
use connect_sdk_i_os_core.Prelude.{
  ℕ, ◌<◌, ◌≡◌, ◌≢◌, Bool, true, false, List, [], ◌∷◌, ◌++◌, Option, some, if◌then◌else◌, ◌==◌,
}
use connect_sdk_i_os_core.Store.{Store, StoreFile}

-- Where the caller is: outside `store`, behind the new `_updated`, behind the new `_deviceStore`.
pub data Main : Type 0 where
  idle : Main
  stamped : Main
  published : Main

-- Where the block at work is: it holds the contents, has written them, has reset `_waitToWrite`.
pub data Job : Type 0 where
  resting : Job
  holding : ℕ → Option StoreFile → Job
  saved : ℕ → Job
  released : ℕ → Job

-- `failed` is no variable of the program: the last block that came to its end met an error.
pub record Writer : Type 0 where
  pub base : Store
  pub main : Main
  pub wait_to_write : Bool
  pub queue : List ℕ
  pub job : Job
  pub file : Option StoreFile
  pub failed : Bool

-- A store that has just been made, and the file that it was made from.
unfoldable pub opened : Store → Writer
opened b = record {
  base = b;
  main = idle;
  wait_to_write = false;
  queue = [];
  job = resting;
  file = b.device_store;
  failed = false;
}

unfoldable pub stamp_now : ℕ → Writer → Writer
stamp_now now s = record s { base = record s.base { updated = now }; main = stamped }

abbrev pub contents_of : Store → StoreFile
contents_of b = record {
  version = b.version;
  created = b.created;
  updated = b.updated;
  devices = b.stored_devices;
}

unfoldable pub publish_contents : Writer → Writer
publish_contents s = record s {
  base = record s.base { device_store = some (contents_of s.base) };
  main = published;
}

-- `writeStoreToDisk` up to the block, which goes to the end of the line.
unfoldable pub write_store_to_disk : Writer → Writer
write_store_to_disk s = record s { wait_to_write = true; queue = s.queue ++ (s.base.updated ∷ []) }

unfoldable pub submit_write : Writer → Writer
submit_write s =
    let s' = record s { main = idle } in if s.wait_to_write then s' else write_store_to_disk s'

unfoldable pub take_contents : ℕ → List ℕ → Writer → Writer
take_contents l rest s = record s { queue = rest; job = holding l s.base.device_store }

-- Either error, of the encoding or of the writing: the block ends here.
unfoldable pub give_up : Writer → Writer
give_up s = record s { wait_to_write = false; job = resting; failed = true }

unfoldable pub write_file : ℕ → Option StoreFile → Writer → Writer
write_file l f s = record s { job = saved l; file = f; failed = false }

unfoldable pub reset_wait : ℕ → Writer → Writer
reset_wait l s = record s { wait_to_write = false; job = released l }

-- The block's last test: something has been stored since it was asked for.
unfoldable pub check_again : ℕ → Writer → Writer
check_again l s =
    let s' = record s { job = resting } in
    if l == s.base.updated then s' else write_store_to_disk s'

-- One step of either thread. With `races` the block's last test may fall between the new `_updated`
-- and the new `_deviceStore`; without, only where it finds that nothing is new.
pub data Step (races : Bool) (s : Writer) : Writer → Type 0 where
  edit :
      (b : Store)
      → s.main ≡ idle
      → b.updated ≡ s.base.updated
      → b.device_store ≡ s.base.device_store
      → Step races s (record s { base = b })
  stamp : (now : ℕ) → s.main ≡ idle → s.base.updated < now → Step races s (stamp_now now s)
  publish : s.main ≡ stamped → Step races s (publish_contents s)
  submit : s.main ≡ published → Step races s (submit_write s)
  take :
      (l : ℕ) (rest : List ℕ)
      → s.job ≡ resting
      → s.queue ≡ l ∷ rest
      → Step races s (take_contents l rest s)
  fail : (l : ℕ) (f : Option StoreFile) → s.job ≡ holding l f → Step races s (give_up s)
  save : (l : ℕ) (f : Option StoreFile) → s.job ≡ holding l f → Step races s (write_file l f s)
  release : (l : ℕ) → s.job ≡ saved l → Step races s (reset_wait l s)
  recheck :
      (l : ℕ)
      → s.job ≡ released l
      → (races ≡ false → l ≢ s.base.updated → s.main ≢ stamped)
      → Step races s (check_again l s)

pub data Reach (races : Bool) (b : Store) : Writer → Type 0 where
  start : Reach races b (opened b)
  later : {s t : Writer} → Reach races b s → Step races s t → Reach races b t
