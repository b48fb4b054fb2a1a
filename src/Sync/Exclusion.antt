-- ===== src/Sync/Exclusion.antt =====
-- What the spinlock of sync/sync_lab3_spinlock.c comes to.
use ldd_samples.Prelude.{ℕ, ◌+◌, ◌%◌, ◌^◌, ◌≡◌, ◌⊎◌, false, arith}
use ldd_samples.Sync.Spinlock.{
  Thread, outside, loaded, stored, Sys, started, Step, locks1, loads1, stores1, unlocks1, locks2,
  loads2, stores2, unlocks2, Reach, here, next,
}

-- A thread that has stored its sum and not counted its round.
abbrev pub in_hand : Thread → ℕ
in_hand stored = 1
in_hand t = 0

pub record IsExclusive (s : Sys) : Type 0 where
  pub apart : (s.thread1 ≡ outside) ⊎ (s.thread2 ≡ outside)
  pub free : s.ldd_spinlock ≡ false → (s.thread1 ≡ outside) × (s.thread2 ≡ outside)
  pub current1 : s.thread1 ≡ loaded → s.loaded1 ≡ s.ldd_global_variable
  pub current2 : s.thread2 ≡ loaded → s.loaded2 ≡ s.ldd_global_variable
  pub total :
      s.ldd_global_variable
      ≡ (s.rounds1 + s.rounds2 + in_hand s.thread1 + in_hand s.thread2) % 2 ^ 64

Step-IsExclusive : {s t : Sys} → Step s t → IsExclusive s → IsExclusive t
Step-IsExclusive (locks1 s at free) h = ground (arith, at, free, h)
Step-IsExclusive (loads1 s at) h = ground (arith, at, h)
Step-IsExclusive (stores1 s at) h = ground (arith, at, h)
Step-IsExclusive (unlocks1 s at) h = ground (arith, at, h)
Step-IsExclusive (locks2 s at free) h = ground (arith, at, free, h)
Step-IsExclusive (loads2 s at) h = ground (arith, at, h)
Step-IsExclusive (stores2 s at) h = ground (arith, at, h)
Step-IsExclusive (unlocks2 s at) h = ground (arith, at, h)

Reach-IsExclusive : (t : Sys) → Reach started t → IsExclusive t
Reach-IsExclusive t here = ground arith
Reach-IsExclusive t (next r step) = Step-IsExclusive step (Reach-IsExclusive _ r)

-- Through any interleaving of the two threads, at most one of them is between its lock and its unlock, and no
-- increment is lost: the variable is the number of the finished rounds of both and of a round that has stored its
-- sum and has not unlocked, in 64 bits.
pub threads-counted :
    (t : Sys)
    → Reach started t
    → ((t.thread1 ≡ outside) ⊎ (t.thread2 ≡ outside))
      × (t.ldd_global_variable
          ≡ (t.rounds1 + t.rounds2 + in_hand t.thread1 + in_hand t.thread2) % 2 ^ 64)
threads-counted t r = let h = Reach-IsExclusive t r in (h.apart, h.total)
