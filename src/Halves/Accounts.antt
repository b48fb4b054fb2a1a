-- ===== src/Halves/Accounts.antt =====
-- The balance of the top and the bottom half of interrupts/lab5_one_tasklet_improved.c.
use ldd_samples.Prelude.{ℕ, ◌+◌, ◌%◌, ◌^◌, ◌<◌, ◌≡◌, ◌≢◌, Bool, true, false, arith}
use ldd_samples.Halves.Improved.{
  Top, out, counted, noted, Bottom, resting, counting, deciding, behind, Sys, loaded, Step, raises,
  notes, schedules, starts, gives_up, accepts, counts, settles, goes_on, catches_up, Reach, here,
  next,
}

-- An interrupt that was counted and is not among the events yet.
abbrev under_way : Top → ℕ
under_way counted = 1
under_way t = 0

-- An event that the bottom half has counted and not taken off yet.
abbrev ahead : Bottom → ℕ
ahead deciding = 1
ahead b = 0

-- The bottom half is in its loop.
abbrev in_loop : Bottom → Bool
in_loop counting = true
in_loop deciding = true
in_loop behind = true
in_loop b = false

pub record IsBalanced (s : Sys) : Type 0 where
  pub balance :
      (s.counter_bh + s.nevents + under_way s.top) % 2 ^ 32
      ≡ (s.counter_th + ahead s.bottom) % 2 ^ 32
  pub counters : (s.counter_th < 2 ^ 32) × (s.counter_bh < 2 ^ 32)
  pub small : s.nevents < 2 ^ 31
  pub busy : in_loop s.bottom ≡ true → s.nevents ≢ 0
  pub waited_for : s.scheduled ≡ false → s.bottom ≡ resting → s.top ≢ noted → s.nevents ≡ 0

Step-IsBalanced : {s t : Sys} → Step s t → IsBalanced s → IsBalanced t
Step-IsBalanced (raises s at) h = ground (arith, at, h)
Step-IsBalanced (notes s at few) h = ground (arith, at, h)
Step-IsBalanced (schedules s at) h = ground (arith, at, h)
Step-IsBalanced (starts s on at) h = ground (arith, at, h)
Step-IsBalanced (gives_up s at none_left) h = ground (arith, at, h)
Step-IsBalanced (accepts s at some_left) h = ground (arith, at, h)
Step-IsBalanced (counts s at) h = ground (arith, at, h)
Step-IsBalanced (settles s at one) h = ground (arith, at, h)
Step-IsBalanced (goes_on s at more) h = ground (arith, at, h)
Step-IsBalanced (catches_up s at) h = ground (arith, at, h)

Reach-IsBalanced : {s t : Sys} → IsBalanced s → Reach s t → IsBalanced t
Reach-IsBalanced h here = h
Reach-IsBalanced h (next r step) = Step-IsBalanced step (Reach-IsBalanced h r)

loaded-IsBalanced : IsBalanced loaded
loaded-IsBalanced = ground arith

-- Through any interleaving of the interrupts with the tasklet, from the load on, with fewer than 2 ^ 31
-- events waiting: whenever the handler is out and the tasklet neither runs nor is scheduled, no event is
-- left, and the bottom half has counted as many as the top half.
pub rests-counted :
    (s : Sys)
    → Reach loaded s
    → s.top ≡ out
    → s.bottom ≡ resting
    → s.scheduled ≡ false
    → (s.nevents ≡ 0) × (s.counter_bh ≡ s.counter_th)
rests-counted s r top bottom idle =
    let h = Reach-IsBalanced loaded-IsBalanced r in
    let none_left : s.nevents ≡ 0 = ground (arith, h, top, bottom, idle) in
    ground (arith, h, none_left, top, bottom)
