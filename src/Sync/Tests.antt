-- ===== src/Sync/Tests.antt =====
-- Runs of sync/sync_lab3_spinlock.c.
use ldd_samples.Prelude.{◌≡◌, ◌⊎◌, refl}
use ldd_samples.Sync.Spinlock
use ldd_samples.Sync.Exclusion

-- The first thread has stored its sum, and the second waits.
abbrev one_stored : Spinlock.Sys
one_stored = Spinlock.store1 (Spinlock.load1 (Spinlock.lock1 Spinlock.started))

one_stored-Reach : Spinlock.Reach Spinlock.started one_stored
one_stored-Reach =
    Spinlock.next
      (Spinlock.next (Spinlock.next Spinlock.here (Spinlock.locks1 Spinlock.started refl refl))
        (Spinlock.loads1 (Spinlock.lock1 Spinlock.started) refl))
      (Spinlock.stores1 (Spinlock.load1 (Spinlock.lock1 Spinlock.started)) refl)

threads-counted_example :
    ((one_stored.thread1 ≡ Spinlock.outside) ⊎ (one_stored.thread2 ≡ Spinlock.outside))
    × (one_stored.ldd_global_variable ≡ 1)
threads-counted_example = Exclusion.threads-counted one_stored one_stored-Reach
