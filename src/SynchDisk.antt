-- ===== src/SynchDisk.antt =====
-- code/filesys/synchdisk.cc: disk requests that return when they are done. The thread waits for the
-- interrupt at a semaphore that is 0 between the requests; the lock of synch.cc does nothing.
use my_nachos.Shared.{ℕ, ◌+◌, List, Result, ok, ◌>>=◌}
use my_nachos.Disk.{Disk, read_request, write_request, handle_interrupt}

-- The disk, and the ticks that have passed.
pub record SynchDisk : Type 0 where
  pub disk : Disk
  pub ticks : ℕ

-- `resume` gives the time when the waiting thread runs again, from the time of the interrupt.
module _ (resume : ℕ → ℕ) where
  -- `semaphore->P()`, at the end of which RequestDone has run.
  unfoldable pub await : Disk → ℕ → SynchDisk
  await d done = record { disk = handle_interrupt d; ticks = resume done }

  unfoldable pub read_sector : SynchDisk → ℕ → Result (List ℕ × SynchDisk)
  unfolding await
  read_sector s sector_number = do
    (bytes, d, delay) ← read_request s.ticks s.disk sector_number
    ok (bytes, await d (s.ticks + delay))

  unfoldable pub write_sector : SynchDisk → ℕ → List ℕ → Result SynchDisk
  unfolding await
  write_sector s sector_number bytes = do
    (d, delay) ← write_request s.ticks s.disk sector_number bytes
    ok (await d (s.ticks + delay))
