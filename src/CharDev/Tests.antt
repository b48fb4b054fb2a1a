-- ===== src/CharDev/Tests.antt =====
-- Runs of char/lab6_char_fasync.c at concrete inputs.
use ldd_samples.Prelude.{
  ℕ, ◌+◌, ◌*◌, ◌^◌, ◌≤◌, ◌≡◌, refl, inr, true, false, List, [], ◌∷◌, arith, ◌≢◌, ◌==◌,
  if◌then◌else◌,
}
use ldd_samples.Kernel.{ret, fail, enomem}
use ldd_samples.Kernel.Memory.{Mem, whole_copy, whole_copy-IsCopy, short_copy, short_copy-IsCopy}
use ldd_samples.CharDev.{membuff_size, Dev, Call, FasyncFn}
use ldd_samples.CharDev.Control.{has, IsFasync}
use ldd_samples.CharDev.Lifecycle.{Answers}
use ldd_samples.CharDev.Session.{
  Op, writing, seeking, reading, controlling, polling, notifying, releasing, perform_all,
  perform_all-in_bounds,
}
use ldd_samples.CharDev.Wait.{Reach, Step, sys, before_wake, written, sleeping, lost_wakeup}

abbrev ramp : Mem
ramp a = a + 7

abbrev zeros : Mem
zeros a = 0

abbrev fresh : Dev
fresh = record {
  membuff = zeros;
  data_ready = false;
  async_queue = 3 ∷ 5 ∷ [];
  ioc_data = zeros;
  counter = 0;
}

abbrev at_start : Call
at_start = record { dev = fresh; user = ramp; pos = 10 }

abbrev put_8 : ℕ
put_8 = 1 * 2 ^ 30 + 8 * 2 ^ 16 + b'k' * 2 ^ 8

abbrev get_8 : ℕ
get_8 = 2 * 2 ^ 30 + 8 * 2 ^ 16 + b'k' * 2 ^ 8

abbrev put_300 : ℕ
put_300 = 1 * 2 ^ 30 + 300 * 2 ^ 16 + b'k' * 2 ^ 8

-- A queue without a file.
abbrev without : ℕ → List ℕ → List ℕ
without file [] = []
without file (f ∷ queue) = let rest = without file queue in if file == f then rest else f ∷ rest

abbrev list_fasync : FasyncFn
list_fasync fd file mode queue =
    if mode == 0 then (without file queue, ret 0) else (file ∷ queue, ret 1)

-- A write of which half is copied, a seek, an ioctl that writes 8 bytes to `ioc_data`, a poll, a call of fasync, a
-- read and a release.
abbrev calls : List Op
calls =
    writing 100 8
    ∷ seeking 2 0
    ∷ controlling put_8 40
    ∷ polling
    ∷ notifying 4 6 1
    ∷ reading false 200 4
    ∷ releasing 6
    ∷ []

perform_all-in_bounds_example :
    ((perform_all whole_copy (short_copy 4) list_fasync at_start calls).pos ≤ membuff_size)
    × ((perform_all whole_copy (short_copy 4) list_fasync at_start calls).dev.membuff 131072 ≡ 0)
    × ((perform_all whole_copy (short_copy 4) list_fasync at_start calls).dev.ioc_data 272 ≡ 0)
perform_all-in_bounds_example =
    perform_all-in_bounds whole_copy-IsCopy (short_copy-IsCopy 4) list_fasync calls at_start 131072
      272 (omega arith, (tt, (omega arith, (tt, (tt, (omega arith, (tt, tt))))))) (omega arith)
      (omega arith) (omega arith)

without-removed : (file : ℕ) (queue : List ℕ) → has file (without file queue) ≡ false
without-removed file [] = refl
without-removed file (f ∷ queue) = ground (arith, without-removed file queue)

without-kept :
    (file other : ℕ) (queue : List ℕ)
    → other ≢ file
    → has other (without file queue) ≡ has other queue
without-kept file other [] ne = refl
without-kept file other (f ∷ queue) ne = ground (arith, without-kept file other queue ne)

list_fasync-IsFasync : IsFasync list_fasync
list_fasync-IsFasync = record {
  removed = λ fd file queue. without-removed file queue;
  kept = λ fd file mode other queue ne. ground (arith, without-kept file other queue ne);
}

abbrev willing : Answers
willing = record {
  register_chrdev = ret 0;
  class_create = ret 0;
  device_create = ret 0;
  kmalloc = true;
}

abbrev no_class : Answers
no_class = record willing { class_create = fail enomem }

lost_wakeup_example :
    Reach (sys false sleeping before_wake) (sys true sleeping written)
    × ((t : _) → ¬ (Step (sys true sleeping written) t))
lost_wakeup_example = lost_wakeup sleeping (inr refl)
