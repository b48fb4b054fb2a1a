-- ===== src/Halves/Threaded.antt =====
-- `my_interrupt` and `thr_fun` of interrupts/lab5_one_thread_improved.c, interleaved.
use ldd_samples.Prelude.{
  ℕ, ◌+◌, ◌-◌, ◌^◌, ◌<◌, ◌≡◌, ◌≢◌, refl, ap, ◌⊎◌, inl, inr, Bool, true, false, arith,
}
use ldd_samples.Halves.Simple.{inc}

-- The handler is out, or behind its first, second or third atomic operation.
pub data Top : Type 0 where
  out noted counted flagged : Top

-- The thread is at the top of its loop, tests the condition of its wait, sleeps in it, is behind it, is in
-- the inner loop before its count, its test or `atomic_inc(&catchup)`, at the outer test, or has ended.
pub data Thread : Type 0 where
  clearing waiting asleep woken counting deciding behind at_end ended : Thread

pub record Sys : Type 0 where
  pub counter_th : ℕ
  pub counter_bh : ℕ
  pub nevents : ℕ
  pub catchup : ℕ
  pub cond : Bool
  pub stop : Bool
  pub top : Top
  pub thread : Thread

abbrev pub note : Sys → Sys
note s = record s { nevents = s.nevents + 1; top = noted }

abbrev pub raise : Sys → Sys
raise s = record s { counter_th = inc s.counter_th; top = counted }

abbrev pub flag : Sys → Sys
flag s = record s { cond = true; top = flagged }

-- `wake_up_interruptible` at the thread's place.
abbrev pub woken_up : Thread → Thread
woken_up asleep = waiting
woken_up t = t

abbrev pub wake : Sys → Sys
wake s = record s { thread = woken_up s.thread; top = out }

abbrev pub goto : Thread → Sys → Sys
goto t s = record s { thread = t }

abbrev pub clear : Sys → Sys
clear s = record s { cond = false; thread = waiting }

abbrev pub count : Sys → Sys
count s = record s { counter_bh = inc s.counter_bh; thread = deciding }

abbrev pub take_off : Thread → Sys → Sys
take_off t s = record s { nevents = s.nevents - 1; thread = t }

abbrev pub catch_up : Sys → Sys
catch_up s = record s { catchup = inc s.catchup; thread = counting }

-- Runs in which fewer than 2 ^ 31 events wait. `stops` is `kthread_stop`, which wakes the thread up.
pub data Step : Sys → Sys → Type 0 where
  notes : (s : Sys) → s.top ≡ out → s.nevents + 1 < 2 ^ 31 → Step s (note s)
  raises : (s : Sys) → s.top ≡ noted → Step s (raise s)
  flags : (s : Sys) → s.top ≡ counted → Step s (flag s)
  wakes : (s : Sys) → s.top ≡ flagged → Step s (wake s)
  stops : (s : Sys) → s.stop ≡ false → Step s (record s { stop = true; thread = woken_up s.thread })
  clears : (s : Sys) → s.thread ≡ clearing → Step s (clear s)
  sleeps : (s : Sys) → s.thread ≡ waiting → s.cond ≡ false → s.stop ≡ false → Step s (goto asleep s)
  passes : (s : Sys) → s.thread ≡ waiting → s.cond ≡ true → Step s (goto woken s)
  passes_stop : (s : Sys) → s.thread ≡ waiting → s.stop ≡ true → Step s (goto woken s)
  returns : (s : Sys) → s.thread ≡ woken → s.stop ≡ true → Step s (goto ended s)
  continues : (s : Sys) → s.thread ≡ woken → s.stop ≡ false → s.nevents ≡ 0 → Step s (goto at_end s)
  accepts : (s : Sys) → s.thread ≡ woken → s.stop ≡ false → s.nevents ≢ 0 → Step s (goto counting s)
  counts : (s : Sys) → s.thread ≡ counting → Step s (count s)
  settles : (s : Sys) → s.thread ≡ deciding → s.nevents ≡ 1 → Step s (take_off at_end s)
  goes_on : (s : Sys) → s.thread ≡ deciding → s.nevents ≢ 1 → Step s (take_off behind s)
  catches_up : (s : Sys) → s.thread ≡ behind → Step s (catch_up s)
  loops : (s : Sys) → s.thread ≡ at_end → s.stop ≡ false → Step s (goto clearing s)
  ends : (s : Sys) → s.thread ≡ at_end → s.stop ≡ true → Step s (goto ended s)

pub data Reach (s : Sys) : Sys → Type 0 where
  here : Reach s s
  next : {t u : Sys} → Reach s t → Step t u → Reach s u

-- A whole run of the handler.
abbrev interrupted : Sys → Sys
interrupted s = wake (flag (raise (note s)))

interrupted-Reach :
    {r : Sys} (s : Sys) → Reach r s → s.top ≡ out → s.nevents + 1 < 2 ^ 31 → Reach r (interrupted s)
interrupted-Reach s r top few =
    next
      (next (next (next r (notes s top few)) (raises (note s) refl)) (flags (raise (note s)) refl))
      (wakes (flag (raise (note s))) refl)

-- A step that only another interrupt or the unload takes.
abbrev IsStalled : Sys → Type 0
IsStalled t = (u : Sys) → Step t u → (u.nevents ≡ t.nevents + 1) ⊎ (u.stop ≡ true)

asleep-IsStalled : (t : Sys) → t.thread ≡ asleep → t.top ≡ out → IsStalled t
asleep-IsStalled t at top u (notes s a b) = inl refl
asleep-IsStalled t at top u (raises s a) = absurd (cc (a, top))
asleep-IsStalled t at top u (flags s a) = absurd (cc (a, top))
asleep-IsStalled t at top u (wakes s a) = absurd (cc (a, top))
asleep-IsStalled t at top u (stops s a) = inr refl
asleep-IsStalled t at top u (clears s a) = absurd (cc (a, at))
asleep-IsStalled t at top u (sleeps s a b c) = absurd (cc (a, at))
asleep-IsStalled t at top u (passes s a b) = absurd (cc (a, at))
asleep-IsStalled t at top u (passes_stop s a b) = absurd (cc (a, at))
asleep-IsStalled t at top u (returns s a b) = absurd (cc (a, at))
asleep-IsStalled t at top u (continues s a b c) = absurd (cc (a, at))
asleep-IsStalled t at top u (accepts s a b c) = absurd (cc (a, at))
asleep-IsStalled t at top u (counts s a) = absurd (cc (a, at))
asleep-IsStalled t at top u (settles s a b) = absurd (cc (a, at))
asleep-IsStalled t at top u (goes_on s a b) = absurd (cc (a, at))
asleep-IsStalled t at top u (catches_up s a) = absurd (cc (a, at))
asleep-IsStalled t at top u (loops s a b) = absurd (cc (a, at))
asleep-IsStalled t at top u (ends s a b) = absurd (cc (a, at))

-- An interrupt that comes while the thread is at the top of its loop, with no event left, can go unserved: the
-- thread clears the condition behind it and goes to sleep with the event waiting, and no step but that of
-- another interrupt or of the unload is left.
pub interrupt-stalls :
    (s : Sys)
    → s.thread ≡ clearing
    → s.top ≡ out
    → s.stop ≡ false
    → s.nevents ≡ 0
    → (t : Sys) × Reach s t
      × (t.nevents ≡ 1)
      × (t.counter_th ≡ inc s.counter_th)
      × (t.counter_bh ≡ s.counter_bh)
      × ((u : Sys) → Step t u → (u.nevents ≡ t.nevents + 1) ⊎ (u.stop ≡ true))
interrupt-stalls s at top on none_left =
    let i : Sys = interrupted s in
    let t : Sys = goto asleep (clear i) in
    (
      t,
      next (next (interrupted-Reach s here top (omega arith)) (clears i (ap woken_up at)))
          (sleeps (clear i) refl refl on),
      omega arith,
      refl,
      refl,
      asleep-IsStalled t refl refl,
    )
