-- ===== src/Halves/Simple.antt =====
-- `my_interrupt` and `t_fun` of interrupts/lab4_one_tasklet.c, interleaved.
use ldd_samples.Prelude.{
  ℕ, zero, suc, ◌+◌, ◌%◌, ◌^◌, ◌<◌, ◌≡◌, ◌∙◌, refl, ap, Bool, true, false, arith,
}

-- A counter of 32 bits, `atomic_inc`.
abbrev pub inc : ℕ → ℕ
inc n = (n + 1) % 2 ^ 32

-- The handler is out, or before `tasklet_schedule`; the tasklet is out, or before its count.
pub data Top : Type 0 where
  out counted : Top

pub data Bottom : Type 0 where
  resting running : Bottom

-- `counter_th` and `counter_bh`, and whether the tasklet is scheduled and has not started.
pub record Sys : Type 0 where
  pub counter_th : ℕ
  pub counter_bh : ℕ
  pub scheduled : Bool
  pub top : Top
  pub bottom : Bottom

-- What `my_generic_init` leaves.
abbrev pub loaded : Sys
loaded = record { counter_th = 0; counter_bh = 0; scheduled = false; top = out; bottom = resting }

abbrev pub raise : Sys → Sys
raise s = record s { counter_th = inc s.counter_th; top = counted }

-- `tasklet_schedule` of a tasklet that is scheduled changes nothing.
abbrev pub schedule : Sys → Sys
schedule s = record s { scheduled = true; top = out }

abbrev pub start : Sys → Sys
start s = record s { scheduled = false; bottom = running }

abbrev pub count : Sys → Sys
count s = record s { counter_bh = inc s.counter_bh; bottom = resting }

pub data Step : Sys → Sys → Type 0 where
  raises : (s : Sys) → s.top ≡ out → Step s (raise s)
  schedules : (s : Sys) → s.top ≡ counted → Step s (schedule s)
  starts : (s : Sys) → s.scheduled ≡ true → s.bottom ≡ resting → Step s (start s)
  counts : (s : Sys) → s.bottom ≡ running → Step s (count s)

pub data Reach (s : Sys) : Sys → Type 0 where
  here : Reach s s
  next : {t u : Sys} → Reach s t → Step t u → Reach s u

-- Nothing runs and nothing is scheduled.
pub record IsQuiet (s : Sys) : Type 0 where
  pub top : s.top ≡ out
  pub bottom : s.bottom ≡ resting
  pub idle : s.scheduled ≡ false

-- `n` interrupts, one after the other, with the tasklet kept from running.
burst : ℕ → Sys → Sys
burst zero s = s
burst (suc n) s = schedule (raise (burst n s))

burst-top : (n : ℕ) (s : Sys) → s.top ≡ out → (burst n s).top ≡ out
unfolding burst
burst-top zero s e = e
burst-top (suc n) s e = refl

burst-Reach : (n : ℕ) (s : Sys) → s.top ≡ out → Reach s (burst n s)
unfolding burst
burst-Reach zero s e = here
burst-Reach (suc n) s e =
    next (next (burst-Reach n s e) (raises (burst n s) (burst-top n s e)))
      (schedules (raise (burst n s)) refl)

burst-counts :
    (n : ℕ) (s : Sys)
    → s.counter_th < 2 ^ 32
    → ((burst n s).counter_th ≡ (s.counter_th + n) % 2 ^ 32)
      × ((burst n s).counter_bh ≡ s.counter_bh)
      × ((burst n s).bottom ≡ s.bottom)
unfolding burst
burst-counts zero s small = (omega arith, refl, refl)
burst-counts (suc n) s small =
    let (th, bh, bottom) = burst-counts n s small in (ap inc th ∙ omega arith, bh, bottom)

-- From any quiet state, however many interrupts there are before the tasklet comes to run, one at least, they
-- can all be counted by the top half and be counted once by the bottom half, after which all is quiet again.
pub burst-coalesces :
    (s : Sys) (n : ℕ)
    → IsQuiet s
    → s.counter_th < 2 ^ 32
    → (t : Sys) × Reach s t
      × IsQuiet t
      × (t.counter_th ≡ (s.counter_th + suc n) % 2 ^ 32)
      × (t.counter_bh ≡ inc s.counter_bh)
unfolding burst
burst-coalesces s n q small =
    let b : Sys = burst (suc n) s in
    let (th, bh, bottom) = burst-counts (suc n) s small in
    let rested : b.bottom ≡ resting = bottom ∙ q.bottom in
    (
      count (start b),
      next (next (burst-Reach (suc n) s q.top) (starts b refl rested)) (counts (start b) refl),
      record { top = refl; bottom = refl; idle = refl },
      th,
      ap inc bh,
    )
