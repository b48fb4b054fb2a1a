-- ===== src/Jit/Lines.antt =====
-- How many lines `jit_timer` of timers/lab9_jit.c returns, and whether its data outlives the timer.
use ldd_samples.Prelude.{ℕ, ◌+◌, ◌≡◌, ◌≢◌, refl, ◌⊎◌, Bool, true, false, arith}
use ldd_samples.Jit.Timer.{
  Expiry, printed, waking, over, Reader, testing, behind, returned, Sys, jit_async_loops,
  registered, count_out, goto, finish, Step, expires, prints, counts_on, counts_out, adds, wakes,
  signals, passes, interrupts, sleeps, restarts, finishes, Reach, here, next,
}

-- A line whose run is not counted yet.
abbrev in_hand : Expiry → ℕ
in_hand printed = 1
in_hand e = 0

-- The last run is counted.
abbrev counted_out : Expiry → Bool
counted_out waking = true
counted_out over = true
counted_out e = false

abbrev has_returned : Reader → Bool
has_returned returned = true
has_returned r = false

pub record IsCounted (s : Sys) : Type 0 where
  pub total : s.lines + s.loops ≡ jit_async_loops + 1 + in_hand s.timer
  pub more : counted_out s.timer ≡ false → s.loops ≢ 0
  pub none_left : counted_out s.timer ≡ true → s.loops ≡ 0
  pub passed : s.reader ≡ behind → s.signal ≡ false → s.loops ≡ 0
  pub done : s.reader ≡ returned → s.loops ≡ 0
  pub kept : s.live ≡ false → s.reader ≡ returned

Step-IsCounted : {s t : Sys} → Step s t → IsCounted s → IsCounted t
Step-IsCounted (expires s at) h = ground (arith, at, h)
Step-IsCounted (prints s at) h = ground (arith, at, h)
Step-IsCounted (counts_on s at more) h = ground (arith, at, more, h)
Step-IsCounted (counts_out s at last) h = ground (arith, at, last, h)
Step-IsCounted (adds s at) h = ground (arith, at, h)
Step-IsCounted (wakes s at) h = ground (arith, at, h)
Step-IsCounted (signals s) h = ground (arith, h)
Step-IsCounted (passes s at zero) h = ground (arith, at, zero, h)
Step-IsCounted (interrupts s at some on) h = ground (arith, at, on, h)
Step-IsCounted (sleeps s at some off) h = ground (arith, at, off, h)
Step-IsCounted (restarts s at on) h = ground (arith, at, on, h)
Step-IsCounted (finishes s at off) h = ground (arith, at, off, h)

Reach-IsCounted : (t : Sys) → Reach registered t → IsCounted t
Reach-IsCounted t here = ground arith
Reach-IsCounted t (next r step) = Step-IsCounted step (Reach-IsCounted _ r)

-- Through any interleaving of the reader, the timer and signals: a reader that returns bytes returns six lines
-- behind the header, its own and the timer's five; the timer is through or at its wake-up.
pub returned-lines :
    (t : Sys)
    → Reach registered t
    → t.reader ≡ returned
    → (t.lines ≡ jit_async_loops + 1) × ((t.timer ≡ waking) ⊎ (t.timer ≡ over))
returned-lines t r at =
    let h = Reach-IsCounted t r in
    let none_left : t.loops ≡ 0 = h.done at in ground (arith, h, none_left)

-- From any state in which the timer is at its last test, the reader at the test of its wait and no signal pending,
-- there is a run after which the data are freed, and the timer's next step, its wake-up, works on them.
pub wake-freed :
    (s : Sys)
    → s.timer ≡ printed
    → s.loops ≡ 1
    → s.reader ≡ testing
    → s.signal ≡ false
    → (t : Sys) × Reach s t × (t.live ≡ false) × (t.timer ≡ waking)
wake-freed s at last reader quiet =
    let c : Sys = count_out s in
    let left : c.loops ≡ 0 = omega (arith, last) in
    (
      finish (goto behind c),
      next (next (next here (counts_out s at last)) (passes c reader left))
          (finishes (goto behind c) refl quiet),
      refl,
      refl,
    )
