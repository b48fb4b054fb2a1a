-- ===== src/Jiq/Client.antt =====
-- `jiq_print` of timers/lab8_jiq.c, what runs it, and what a read prepares for it. How a read sleeps is
-- Jiq/Sleep.
use ldd_samples.Prelude.{ℕ, zero, suc, ◌+◌, ◌-◌, Bool, true, false, ltb, ◌==◌, if◌then◌else◌}

-- `LIMIT`, with pages of 4096 bytes
abbrev pub limit : ℕ
limit = 4096 - 128

-- `struct clientdata`. `buf` is the place in the page of the reader, relative to its start.
pub record Client : Type 0 where
  pub len : ℕ
  pub buf : ℕ
  pub jiffies : ℕ
  pub delay : ℕ

-- What a call of `jiq_print` meets: the lengths that `sprintf` returns for the title and for the line,
-- and the time.
pub record Line : Type 0 where
  pub title : ℕ
  pub text : ℕ
  pub now : ℕ

-- `jiq_print`: false stands for the return of 0, which comes with the wake-up of the reader.
unfoldable pub jiq_print : Line → Client → Client × Bool
jiq_print l c =
    if ltb limit c.len
    then (c, false)
    else let len = (if c.len == 0 then l.title else 0) + l.text in
      (record c { len = c.len + len; buf = c.buf + len; jiffies = l.now }, true)

-- Runs that have ended, with the wake-up of `jiq_print`, or a work item that is queued still.
pub data Run : Type 0 where
  ended : Client → Run
  queued : Client → Run

unfoldable pub after_print : (Client → Run) → Client × Bool → Run
after_print again (c, true) = again c
after_print again (c, false) = ended c

-- `jiq_print_wq`, `jiq_print_wq_delayed` and `jiq_print_tasklet`, which put themselves into their queue
-- again: at most `fuel` runs, the `i`th of which meets `lines i`.
unfoldable pub runs : (fuel i : ℕ) → (lines : ℕ → Line) → Client → Run
unfolding jiq_print after_print
runs zero i lines c = queued c
runs (suc fuel) i lines c = after_print (λ c'. runs fuel (i + 1) lines c') (jiq_print (lines i) c)

-- The client that `jiq_read_wq` and its kin prepare: nothing printed yet.
abbrev pub prepared : (now delay : ℕ) → Client
prepared now delay = record { len = 0; buf = 0; jiffies = now; delay = delay }

-- `jiq_timedout`, which prints and wakes the reader up whatever it printed.
unfoldable pub timedout : Line → Client → Client
unfolding jiq_print
timedout l c = (jiq_print l c).0

-- `jiq_read_run_timer`; `expired` is false where a signal ended the sleep and the timer was deleted.
unfoldable pub read_run_timer : (now : ℕ) → (expired : Bool) → (first second : Line) → Client
unfolding jiq_print timedout
read_run_timer now expired first second =
    let c = (jiq_print first (prepared now 0)).0 in if expired then timedout second c else c
