-- ===== src/Completion/Machine.antt =====
-- `wait_function` of misc/completion_static.c, with any number of calls of `etx_read` and of
-- `etx_driver_exit` beside it, step by step as they touch what they share.
use ldd_samples.Prelude.{ℕ, ◌+◌, ◌-◌, ◌%◌, ◌^◌, ◌<◌, ◌≡◌, ◌≢◌}

-- Where the thread is: in `wait_for_completion`, behind it, behind the count, or at its end.
pub data Thread : Type 0 where
  asleep awake counted ended : Thread

-- `completions` is the count of `data_read_done`. Of the calls, `calls` have set the flag, `testing` are
-- before `completion_done`, and `signalling` between it and `complete`.
pub record Sys : Type 0 where
  pub completions : ℕ
  pub flag : ℕ
  pub read_count : ℕ
  pub thread : Thread
  pub calls : ℕ
  pub testing : ℕ
  pub signalling : ℕ

abbrev pub loaded : Sys
loaded = record {
  completions = 0;
  flag = 0;
  read_count = 0;
  thread = asleep;
  calls = 0;
  testing = 0;
  signalling = 0;
}

-- A call sets the flag, to 1 in `etx_read` and to 2 in `etx_driver_exit`.
abbrev pub begin : ℕ → Sys → Sys
begin v s = record s { flag = v; calls = s.calls + 1; testing = s.testing + 1 }

-- `completion_done` finds a completion that nobody has taken, or none.
abbrev pub pass_by : Sys → Sys
pass_by s = record s { testing = s.testing - 1 }

abbrev pub decide : Sys → Sys
decide s = record s { testing = s.testing - 1; signalling = s.signalling + 1 }

abbrev pub signal : Sys → Sys
signal s = record s { signalling = s.signalling - 1; completions = s.completions + 1 }

-- The thread: out of the wait, out of the loop, on by `++read_count`, and back.
abbrev pub wake : Sys → Sys
wake s = record s { completions = s.completions - 1; thread = awake }

abbrev pub leave : Sys → Sys
leave s = record s { thread = ended }

abbrev pub count : Sys → Sys
count s = record s { read_count = (s.read_count + 1) % 2 ^ 32; thread = counted }

abbrev pub clear : Sys → Sys
clear s = record s { flag = 0; thread = asleep }

pub data Step : Sys → Sys → Type 0 where
  reads : (s : Sys) → Step s (begin 1 s)
  exits : (s : Sys) → Step s (begin 2 s)
  passes_by : (s : Sys) → 0 < s.testing → 0 < s.completions → Step s (pass_by s)
  decides : (s : Sys) → 0 < s.testing → s.completions ≡ 0 → Step s (decide s)
  signals : (s : Sys) → 0 < s.signalling → Step s (signal s)
  wakes : (s : Sys) → s.thread ≡ asleep → 0 < s.completions → Step s (wake s)
  leaves : (s : Sys) → s.thread ≡ awake → s.flag ≡ 2 → Step s (leave s)
  counts : (s : Sys) → s.thread ≡ awake → s.flag ≢ 2 → Step s (count s)
  clears : (s : Sys) → s.thread ≡ counted → Step s (clear s)

pub data Reach (s : Sys) : Sys → Type 0 where
  here : Reach s s
  next : {t u : Sys} → Reach s t → Step t u → Reach s u
