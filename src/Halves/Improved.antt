-- ===== src/Halves/Improved.antt =====
-- `my_interrupt` and `t_fun` of interrupts/lab5_one_tasklet_improved.c, interleaved.
use ldd_samples.Prelude.{ℕ, ◌+◌, ◌-◌, ◌^◌, ◌<◌, ◌≡◌, ◌≢◌, Bool, true, false}
use ldd_samples.Halves.Simple.{inc}

-- The handler is out, or behind `atomic_inc(&counter_th)`, or behind `atomic_inc(&nevents)`.
pub data Top : Type 0 where
  out counted noted : Top

-- The tasklet is out, at its test, before its count, before `atomic_dec_and_test`, or before
-- `atomic_inc(&catchup)`.
pub data Bottom : Type 0 where
  resting testing counting deciding behind : Bottom

pub record Sys : Type 0 where
  pub counter_th : ℕ
  pub counter_bh : ℕ
  pub nevents : ℕ
  pub catchup : ℕ
  pub scheduled : Bool
  pub top : Top
  pub bottom : Bottom

-- What `my_init` leaves.
abbrev pub loaded : Sys
loaded = record {
  counter_th = 0;
  counter_bh = 0;
  nevents = 0;
  catchup = 0;
  scheduled = false;
  top = out;
  bottom = resting;
}

abbrev pub raise : Sys → Sys
raise s = record s { counter_th = inc s.counter_th; top = counted }

abbrev pub note : Sys → Sys
note s = record s { nevents = s.nevents + 1; top = noted }

abbrev pub schedule : Sys → Sys
schedule s = record s { scheduled = true; top = out }

abbrev pub start : Sys → Sys
start s = record s { scheduled = false; bottom = testing }

abbrev pub give_up : Sys → Sys
give_up s = record s { bottom = resting }

abbrev pub accept : Sys → Sys
accept s = record s { bottom = counting }

abbrev pub count : Sys → Sys
count s = record s { counter_bh = inc s.counter_bh; bottom = deciding }

abbrev pub settle : Sys → Sys
settle s = record s { nevents = s.nevents - 1; bottom = resting }

abbrev pub go_on : Sys → Sys
go_on s = record s { nevents = s.nevents - 1; bottom = behind }

abbrev pub catch_up : Sys → Sys
catch_up s = record s { catchup = inc s.catchup; bottom = counting }

-- Runs in which fewer than 2 ^ 31 events wait, so that `nevents` stays a positive `int`.
pub data Step : Sys → Sys → Type 0 where
  raises : (s : Sys) → s.top ≡ out → Step s (raise s)
  notes : (s : Sys) → s.top ≡ counted → s.nevents + 1 < 2 ^ 31 → Step s (note s)
  schedules : (s : Sys) → s.top ≡ noted → Step s (schedule s)
  starts : (s : Sys) → s.scheduled ≡ true → s.bottom ≡ resting → Step s (start s)
  gives_up : (s : Sys) → s.bottom ≡ testing → s.nevents ≡ 0 → Step s (give_up s)
  accepts : (s : Sys) → s.bottom ≡ testing → s.nevents ≢ 0 → Step s (accept s)
  counts : (s : Sys) → s.bottom ≡ counting → Step s (count s)
  settles : (s : Sys) → s.bottom ≡ deciding → s.nevents ≡ 1 → Step s (settle s)
  goes_on : (s : Sys) → s.bottom ≡ deciding → s.nevents ≢ 1 → Step s (go_on s)
  catches_up : (s : Sys) → s.bottom ≡ behind → Step s (catch_up s)

pub data Reach (s : Sys) : Sys → Type 0 where
  here : Reach s s
  next : {t u : Sys} → Reach s t → Step t u → Reach s u
