-- ===== src/Jit/Timer.antt =====
-- `jit_timer` and `jit_timer_fn` of timers/lab9_jit.c, interleaved. The tasklets of `jit_tasklet` do the same
-- with no time between their runs.
use ldd_samples.Prelude.{ℕ, ◌+◌, ◌-◌, ◌≡◌, ◌≢◌, Bool, true, false}

-- The timer waits to expire, or is in `jit_timer_fn` before its line, before its test, before `add_timer` or
-- before its wake-up, or is through.
pub data Expiry : Type 0 where
  pending running printed adding waking over : Expiry

-- The reader is at the test of its wait, asleep in it, or behind it, or has returned its bytes, or ERESTARTSYS.
pub data Reader : Type 0 where
  testing asleep behind returned restarted : Reader

-- `loops` and whether `data` is allocated; the lines in the buffer, the header apart; whether a signal is pending.
pub record Sys : Type 0 where
  pub loops : ℕ
  pub live : Bool
  pub lines : ℕ
  pub signal : Bool
  pub timer : Expiry
  pub reader : Reader

-- `JIT_ASYNC_LOOPS`
abbrev pub jit_async_loops : ℕ
jit_async_loops = 5

-- Behind `add_timer` of `jit_timer`.
abbrev pub registered : Sys
registered = record {
  loops = jit_async_loops;
  live = true;
  lines = 1;
  signal = false;
  timer = pending;
  reader = testing;
}

abbrev pub expire : Sys → Sys
expire s = record s { timer = running }

abbrev pub print : Sys → Sys
print s = record s { lines = s.lines + 1; timer = printed }

-- `if (--data->loops)`
abbrev pub count_on : Sys → Sys
count_on s = record s { loops = s.loops - 1; timer = adding }

abbrev pub count_out : Sys → Sys
count_out s = record s { loops = s.loops - 1; timer = waking }

abbrev pub add_timer : Sys → Sys
add_timer s = record s { timer = pending }

-- `wake_up_interruptible` at the reader's place.
abbrev pub woken : Reader → Reader
woken asleep = testing
woken r = r

abbrev pub wake : Sys → Sys
wake s = record s { timer = over; reader = woken s.reader }

abbrev pub goto : Reader → Sys → Sys
goto r s = record s { reader = r }

-- `kfree(data)` and the return.
abbrev pub finish : Sys → Sys
finish s = record s { live = false; reader = returned }

pub data Step : Sys → Sys → Type 0 where
  expires : (s : Sys) → s.timer ≡ pending → Step s (expire s)
  prints : (s : Sys) → s.timer ≡ running → Step s (print s)
  counts_on : (s : Sys) → s.timer ≡ printed → s.loops ≢ 1 → Step s (count_on s)
  counts_out : (s : Sys) → s.timer ≡ printed → s.loops ≡ 1 → Step s (count_out s)
  adds : (s : Sys) → s.timer ≡ adding → Step s (add_timer s)
  wakes : (s : Sys) → s.timer ≡ waking → Step s (wake s)
  signals : (s : Sys) → Step s (record s { signal = true; reader = woken s.reader })
  passes : (s : Sys) → s.reader ≡ testing → s.loops ≡ 0 → Step s (goto behind s)
  interrupts :
      (s : Sys) → s.reader ≡ testing → s.loops ≢ 0 → s.signal ≡ true → Step s (goto behind s)
  sleeps : (s : Sys) → s.reader ≡ testing → s.loops ≢ 0 → s.signal ≡ false → Step s (goto asleep s)
  restarts : (s : Sys) → s.reader ≡ behind → s.signal ≡ true → Step s (goto restarted s)
  finishes : (s : Sys) → s.reader ≡ behind → s.signal ≡ false → Step s (finish s)

pub data Reach (s : Sys) : Sys → Type 0 where
  here : Reach s s
  next : {t u : Sys} → Reach s t → Step t u → Reach s u
