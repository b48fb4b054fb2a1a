-- ===== src/Completion/Tests.antt =====
-- Runs of misc/completion_static.c at concrete inputs.
use ldd_samples.Prelude.{◌+◌, ◌%◌, ◌^◌, ◌≤◌, ◌≡◌, refl, true, false, some, [], ◌∷◌, arith}
use ldd_samples.Kernel.Ledger.{replay, cdev}
use ldd_samples.Completion.Machine.{
  Sys, asleep, loaded, begin, decide, signal, wake, count, Step, reads, decides, signals, wakes,
  counts, Reach, here, next,
}
use ldd_samples.Completion.Counting.{taken, IsQuiet, counted-le, unload-lost}
use ldd_samples.Completion.Lifecycle.{Answers, init}

-- One read, up to the count.
abbrev read_once : Sys
read_once = count (wake (signal (decide (begin 1 loaded))))

read_once-Reach : Reach loaded read_once
read_once-Reach =
    next
      (next
        (next (next (next here (reads loaded)) (decides (begin 1 loaded) (omega arith) refl))
          (signals (decide (begin 1 loaded)) (omega arith)))
        (wakes (signal (decide (begin 1 loaded))) refl (omega arith)))
      (counts (wake (signal (decide (begin 1 loaded)))) refl (omega arith))

counted-le_example :
    read_once.read_count + taken read_once.thread + read_once.completions ≤ read_once.calls
counted-le_example = counted-le read_once read_once-Reach

loaded-IsQuiet : IsQuiet loaded
loaded-IsQuiet = record { asleep = refl; drained = refl }

unload-lost_example :
    (t : Sys) × Reach read_once t
    × (t.thread ≡ asleep)
    × (t.read_count ≡ (read_once.read_count + 1) % 2 ^ 32)
    × ((u : Sys) → Step t u → u.calls ≡ t.calls + 1)
unload-lost_example = unload-lost read_once refl refl refl refl

abbrev no_device : Answers
no_device = record {
  region = true;
  cdev_add = true;
  class_create = true;
  device_create = false;
  kthread_create = true;
}

no_device_run : replay (init no_device).0 [] ≡ some (cdev ∷ [])
unfolding init
no_device_run = refl
