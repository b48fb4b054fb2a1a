-- ===== src/Gates/Flag.antt =====
-- `mycdrv_read` and `mycdrv_write` of ioctl/lab4_wait_event.c, lab5_killable.c and lab6_poll.c and `sleepy_read`
-- and `sleepy_write` of lab7_sleepy.c, interleaved: any number of readers, and one write at a time. Runs without
-- signals.
use ldd_samples.Prelude.{ℕ, ◌+◌, ◌-◌, ◌%◌, ◌==◌, ◌≡◌, ◌≢◌, Bool, true, false, if◌then◌else◌}

-- The states that a task sleeps in, as the bits that the kernel has for them: TASK_INTERRUPTIBLE, and
-- TASK_KILLABLE, which is TASK_WAKEKILL with TASK_UNINTERRUPTIBLE.
abbrev pub interruptible : ℕ
interruptible = 1

abbrev pub killable : ℕ
killable = 258

-- A wake-up with the mode TASK_INTERRUPTIBLE, the lowest bit, reaches the tasks whose state has it.
abbrev pub is_woken : (sleep_state : ℕ) → Bool
is_woken sleep_state = sleep_state % 2 == 1

-- What the labs differ in: the wait, whether a reader behind it clears the flag, and whether a write sets the
-- flag before it wakes the readers up.
pub record Lab : Type 0 where
  pub sleeps_in : ℕ
  pub clears : Bool
  pub set_first : Bool

abbrev pub wait_event_lab : Lab
wait_event_lab = record { sleeps_in = interruptible; clears = false; set_first = true }

abbrev pub killable_lab : Lab
killable_lab = record { sleeps_in = killable; clears = true; set_first = true }

abbrev pub poll_lab : Lab
poll_lab = record { sleeps_in = interruptible; clears = true; set_first = false }

abbrev pub sleepy_lab : Lab
sleepy_lab = record { sleeps_in = interruptible; clears = true; set_first = true }

-- The write is out, or between its two steps.
pub data Writer : Type 0 where
  out halfway : Writer

-- The flag, the numbers of readers at the test of their wait, asleep in it, behind it, and that have
-- returned, and the writes that are over.
pub record Sys : Type 0 where
  pub flag : Bool
  pub testing : ℕ
  pub sleeping : ℕ
  pub behind : ℕ
  pub done : ℕ
  pub writer : Writer
  pub writes : ℕ

-- What the init leaves.
abbrev pub loaded : Sys
loaded = record {
  flag = false;
  testing = 0;
  sleeping = 0;
  behind = 0;
  done = 0;
  writer = out;
  writes = 0;
}

-- `wake_up_interruptible`, by the state that the readers sleep in.
abbrev pub wake_up : Lab → Sys → Sys
wake_up l s =
    if is_woken l.sleeps_in then record s { testing = s.testing + s.sleeping; sleeping = 0 } else s

abbrev pub set_flag : Sys → Sys
set_flag s = record s { flag = true }

abbrev pub begin_write : Lab → Sys → Sys
begin_write l s = record (if l.set_first then set_flag s else wake_up l s) { writer = halfway }

abbrev pub end_write : Lab → Sys → Sys
end_write l s = record (if l.set_first then wake_up l s else set_flag s) {
  writer = out;
  writes = s.writes + 1;
}

abbrev pub enter : Sys → Sys
enter s = record s { testing = s.testing + 1 }

abbrev pub pass : Sys → Sys
pass s = record s { testing = s.testing - 1; behind = s.behind + 1 }

abbrev pub sleep : Sys → Sys
sleep s = record s { testing = s.testing - 1; sleeping = s.sleeping + 1 }

abbrev pub finish : Lab → Sys → Sys
finish l s = record s {
  flag = if l.clears then false else s.flag;
  behind = s.behind - 1;
  done = s.done + 1;
}

pub data Step (l : Lab) : Sys → Sys → Type 0 where
  enters : (s : Sys) → Step l s (enter s)
  passes : (s : Sys) → s.testing ≢ 0 → s.flag ≡ true → Step l s (pass s)
  sleeps : (s : Sys) → s.testing ≢ 0 → s.flag ≡ false → Step l s (sleep s)
  finishes : (s : Sys) → s.behind ≢ 0 → Step l s (finish l s)
  begins : (s : Sys) → s.writer ≡ out → Step l s (begin_write l s)
  ends : (s : Sys) → s.writer ≡ halfway → Step l s (end_write l s)

pub data Reach (l : Lab) (s : Sys) : Sys → Type 0 where
  here : Reach l s s
  next : {t u : Sys} → Reach l s t → Step l t u → Reach l s u
