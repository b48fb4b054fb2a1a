-- ===== src/CharDev/Wait.antt =====
-- One reader in the wait of `chardrv_read` and one writer at the end of `chardrv_write`
-- (char/lab6_char_fasync.c), interleaved. The writer calls `wake_up_interruptible` and then sets
-- `data_ready`. The reader runs `wait_event_interruptible` with no signal pending: it queues
-- itself, tests the condition, and sleeps if it is false until a wake-up sends it back to the test.
use ldd_samples.Prelude.{◌≡◌, refl, ◌⊎◌, Bool, true, false, arith}

pub data Reader : Type 0 where
  testing sleeping past finished : Reader

pub data Writer : Type 0 where
  before_wake before_set written : Writer

pub record Sys : Type 0 where
  pub ready : Bool
  pub reader : Reader
  pub writer : Writer

abbrev pub sys : Bool → Reader → Writer → Sys
sys b r w = record { ready = b; reader = r; writer = w }

-- `wake_up_interruptible` at the reader's place in the loop.
abbrev pub woken : Reader → Reader
woken sleeping = testing
woken r = r

pub data Step : Sys → Sys → Type 0 where
  -- the reader's test, and the way out of the loop or to sleep
  test_true : (w : Writer) → Step (sys true testing w) (sys true past w)
  test_false : (w : Writer) → Step (sys false testing w) (sys false sleeping w)
  -- `atomic_set(&data_ready, 0)`
  take_data : (b : Bool) (w : Writer) → Step (sys b past w) (sys false finished w)
  -- the two steps of the writer, in the order of the source
  wake : (b : Bool) (r : Reader) → Step (sys b r before_wake) (sys b (woken r) before_set)
  set_ready : (b : Bool) (r : Reader) → Step (sys b r before_set) (sys true r written)

pub data Reach (s : Sys) : Sys → Type 0 where
  here : Reach s s
  next : {t u : Sys} → Reach s t → Step t u → Reach s u

-- The flag is set, and the reader is past its wait, only once the writer is through.
pub record IsOrdered (s : Sys) : Type 0 where
  pub flag : (s.ready ≡ true) → s.writer ≡ written
  pub passed : (s.reader ≡ past) → s.writer ≡ written
  pub done : (s.reader ≡ finished) → s.writer ≡ written

Step-IsOrdered : {s t : Sys} → Step s t → IsOrdered s → IsOrdered t
Step-IsOrdered (test_true w) h = record {
  flag = λ e. h.flag refl;
  passed = λ e. h.flag refl;
  done = λ e. cc;
}
Step-IsOrdered (test_false w) h = record { flag = λ e. cc; passed = λ e. cc; done = λ e. cc }
Step-IsOrdered (take_data b w) h = record {
  flag = λ e. cc;
  passed = λ e. cc;
  done = λ e. h.passed refl;
}
Step-IsOrdered (wake true r) h = absurd (cc (h.flag refl))
Step-IsOrdered (wake false testing) h = record { flag = λ e. cc; passed = λ e. cc; done = λ e. cc }
Step-IsOrdered (wake false sleeping) h = record { flag = λ e. cc; passed = λ e. cc; done = λ e. cc }
Step-IsOrdered (wake false past) h = absurd (cc (h.passed refl))
Step-IsOrdered (wake false finished) h = absurd (cc (h.done refl))
Step-IsOrdered (set_ready b r) h = record { flag = λ e. refl; passed = λ e. refl; done = λ e. refl }

Reach-IsOrdered : {s t : Sys} → IsOrdered s → Reach s t → IsOrdered t
Reach-IsOrdered h here = h
Reach-IsOrdered h (next r st) = Step-IsOrdered st (Reach-IsOrdered h r)

-- In every interleaving that starts before the write, with the flag clear and the reader at its
-- test, a reader that has got past its wait has the whole write behind it.
pub passed-after-write :
    (t : Sys) → Reach (sys false testing before_wake) t → t.reader ≡ past → t.writer ≡ written
passed-after-write t r e =
    (Reach-IsOrdered (record { flag = λ e. cc; passed = λ e. cc; done = λ e. cc }) r).passed e

no-Step : {s t : Sys} → s ≡ sys true sleeping written → Step s t → ⊥
no-Step e (test_true w) = cc
no-Step e (test_false w) = cc
no-Step e (take_data b w) = cc
no-Step e (wake b r) = cc
no-Step e (set_ready b r) = cc

lose : Reach (sys false sleeping before_wake) (sys true sleeping written)
lose =
    next (next (next here (wake false sleeping)) (test_false before_set)) (set_ready false sleeping)

Reach-prepend : {s t u : Sys} → Step s t → Reach t u → Reach s u
Reach-prepend st here = next here st
Reach-prepend st (next r st') = next (Reach-prepend st r) st'

-- Whether the reader is at its test or asleep before the write, the wake-up can be lost: there is
-- an interleaving that ends with the write done, the flag set and the reader asleep, where neither
-- has a step left.
pub lost_wakeup :
    (r : Reader)
    → (r ≡ testing) ⊎ (r ≡ sleeping)
    → Reach (sys false r before_wake) (sys true sleeping written)
      × ((t : Sys) → ¬ (Step (sys true sleeping written) t))
lost_wakeup testing h = (Reach-prepend (test_false before_wake) lose, λ t st. no-Step refl st)
lost_wakeup sleeping h = (lose, λ t st. no-Step refl st)
lost_wakeup past h = absurd (ground arith)
lost_wakeup finished h = absurd (ground arith)
