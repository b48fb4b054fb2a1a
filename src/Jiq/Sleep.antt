-- ===== src/Jiq/Sleep.antt =====
-- A reader of timers/lab8_jiq.c against the runs that it starts. `jiq_read_wq` and `jiq_read_wq_delayed` put
-- themselves into the queue of the sleepers by `prepare_to_wait` before they schedule the work, and
-- `jiq_read_tasklet` calls `interruptible_sleep_on` after it has scheduled the tasklet. One read at a time, and no
-- signals.
use ldd_samples.Prelude.{ℕ, ◌+◌, ◌≡◌, Bool, true, false, if◌then◌else◌}
use ldd_samples.Jiq.Client.{Client, Line, jiq_print, prepared}

-- Where the reader is: at the start, between the two calls, behind both, where it sleeps if no wake-up has
-- reached it since it came into the queue, and returned.
pub data Phase : Type 0 where
  begun halfway behind back : Phase

pub record Sys : Type 0 where
  pub phase : Phase
  pub waiting : Bool
  pub queued : Bool
  pub turn : ℕ
  pub client : Client

abbrev pub start : (now delay : ℕ) → Sys
start now delay = record {
  phase = begun;
  waiting = false;
  queued = false;
  turn = 0;
  client = prepared now delay;
}

abbrev pub wait : Sys → Sys
wait s = record s { waiting = true }

abbrev pub schedule : Sys → Sys
schedule s = record s { queued = true }

-- `waits_first` is true of the two reads through a work queue.
abbrev pub first_call : (waits_first : Bool) → Sys → Sys
first_call waits_first s = record (if waits_first then wait s else schedule s) { phase = halfway }

abbrev pub second_call : (waits_first : Bool) → Sys → Sys
second_call waits_first s = record (if waits_first then schedule s else wait s) { phase = behind }

-- A run of the work or of the tasklet: it goes into its queue again, or has woken up who waits.
abbrev pub run : (lines : ℕ → Line) → Sys → Sys
run lines s =
    let (client, again) = jiq_print (lines s.turn) s.client in
    record s {
      waiting = if again then s.waiting else false;
      queued = again;
      turn = s.turn + 1;
      client = client;
    }

pub data Step (waits_first : Bool) (lines : ℕ → Line) : Sys → Sys → Type 0 where
  calls : (s : Sys) → s.phase ≡ begun → Step waits_first lines s (first_call waits_first s)
  calls_on : (s : Sys) → s.phase ≡ halfway → Step waits_first lines s (second_call waits_first s)
  runs : (s : Sys) → s.queued ≡ true → Step waits_first lines s (run lines s)
  returns :
      (s : Sys)
      → s.phase ≡ behind
      → s.waiting ≡ false
      → Step waits_first lines s (record s { phase = back })

pub data Reach (waits_first : Bool) (lines : ℕ → Line) (s : Sys) : Sys → Type 0 where
  here : Reach waits_first lines s s
  next :
      {t u : Sys}
      → Reach waits_first lines s t
      → Step waits_first lines t u
      → Reach waits_first lines s u

pub Reach-trans :
    {w : Bool} {lines : ℕ → Line} {s t u : Sys}
    → Reach w lines s t
    → Reach w lines t u
    → Reach w lines s u
Reach-trans r here = r
Reach-trans r (next q step) = next (Reach-trans r q) step
