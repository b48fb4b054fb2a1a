-- ===== src/Timers/Machine.antt =====
-- `mycdrv_write`, `my_timer_function` and `my_exit` of timers/lab2_multitimer.c, interleaved. The module cannot be
-- unloaded while a file is open, so that no write runs beside the exit.
use ldd_samples.Prelude.{ℕ, ◌+◌, ◌-◌, ◌≡◌, ◌≢◌, ◌<◌, ◌^◌}

-- The module is in use, in the loop of `my_exit`, or gone.
pub data Module : Type 0 where
  in_use exiting gone : Module

-- `ntimers`; the objects that are allocated; the writes that have not added their timer yet; the timers that wait
-- to expire, those whose function runs before its frees, before `atomic_dec`, and behind it.
pub record Sys : Type 0 where
  pub ntimers : ℕ
  pub objects : ℕ
  pub writing : ℕ
  pub pending : ℕ
  pub running : ℕ
  pub freed : ℕ
  pub leaving : ℕ
  pub stage : Module

abbrev pub loaded : Sys
loaded = record {
  ntimers = 0;
  objects = 0;
  writing = 0;
  pending = 0;
  running = 0;
  freed = 0;
  leaving = 0;
  stage = in_use;
}

-- Up to the second `kmalloc`; both are taken to succeed, as the source does.
abbrev pub begin_write : Sys → Sys
begin_write s = record s {
  ntimers = s.ntimers + 1;
  objects = s.objects + 2;
  writing = s.writing + 1;
}

abbrev pub add_timer : Sys → Sys
add_timer s = record s { writing = s.writing - 1; pending = s.pending + 1 }

abbrev pub expire : Sys → Sys
expire s = record s { pending = s.pending - 1; running = s.running + 1 }

abbrev pub free_both : Sys → Sys
free_both s = record s { objects = s.objects - 2; running = s.running - 1; freed = s.freed + 1 }

abbrev pub decrement : Sys → Sys
decrement s = record s { ntimers = s.ntimers - 1; freed = s.freed - 1; leaving = s.leaving + 1 }

abbrev pub leave : Sys → Sys
leave s = record s { leaving = s.leaving - 1 }

-- `ntimers` stays a positive `int`.
pub data Step : Sys → Sys → Type 0 where
  writes : (s : Sys) → s.stage ≡ in_use → s.ntimers + 1 < 2 ^ 31 → Step s (begin_write s)
  adds : (s : Sys) → s.writing ≢ 0 → Step s (add_timer s)
  expires : (s : Sys) → s.pending ≢ 0 → Step s (expire s)
  frees : (s : Sys) → s.running ≢ 0 → Step s (free_both s)
  decrements : (s : Sys) → s.freed ≢ 0 → Step s (decrement s)
  leaves : (s : Sys) → s.leaving ≢ 0 → Step s (leave s)
  exits : (s : Sys) → s.stage ≡ in_use → s.writing ≡ 0 → Step s (record s { stage = exiting })
  unloads : (s : Sys) → s.stage ≡ exiting → s.ntimers ≡ 0 → Step s (record s { stage = gone })

pub data Reach (s : Sys) : Sys → Type 0 where
  here : Reach s s
  next : {t u : Sys} → Reach s t → Step t u → Reach s u
