-- ===== src/Commands/Signal.antt =====
-- `mycdrv_unlocked_ioctl` of ioctl/lab3_ioctl_signal.c. The kernel's search for a task is a parameter; a task is
-- named by a number, and so is a signal.
use ldd_samples.Prelude.{
  ℕ, ◌+◌, ◌*◌, ◌^◌, Option, none, some, List, [], ◌∷◌, ◌++◌, ◌==◌, if◌then◌else◌,
}
use ldd_samples.Kernel.{Ret, ret, fail, einval}
use ldd_samples.Kernel.Word.{to_int}

-- `MYIOC_SETPID`, `MYIOC_SETSIG` and `MYIOC_SENDSIG`, `_IO('k', 1)` to `_IO('k', 3)`
abbrev pub myioc_setpid : ℕ
myioc_setpid = b'k' * 2 ^ 8 + 1

abbrev pub myioc_setsig : ℕ
myioc_setsig = b'k' * 2 ^ 8 + 2

abbrev pub myioc_sendsig : ℕ
myioc_sendsig = b'k' * 2 ^ 8 + 3

-- The module's variables, and the signals that were sent, each with its task, the first first.
pub record Target : Type 0 where
  pub sig_pid : ℕ
  pub sig_tsk : Option ℕ
  pub sig_tosend : ℕ
  pub sent : List (ℕ × ℕ)

-- SIGKILL is 9.
abbrev pub loaded : Target
loaded = record { sig_pid = 0; sig_tsk = none; sig_tosend = 9; sent = [] }

-- `send_sig`, whose result only goes to the log.
abbrev pub send_sig : ℕ → Target → Target
send_sig task t = record t { sent = t.sent ++ ((task, t.sig_tosend) ∷ []) }

-- `current` is the task that calls, and `pid_of` its process id.
module _ (pid_task : ℕ → Option ℕ) (pid_of : ℕ → ℕ) where
  unfoldable pub unlocked_ioctl : (current : ℕ) → Target → (cmd arg : ℕ) → Target × Ret
  unlocked_ioctl current t cmd arg =
      if cmd == myioc_setpid
      then (record t { sig_pid = to_int arg; sig_tsk = pid_task (to_int arg) }, ret 0)
      else if cmd == myioc_setsig
      then (record t { sig_tosend = to_int arg }, ret 0)
      else if cmd == myioc_sendsig
      then elim t.sig_tsk [
        | none ↦ (
          send_sig current (record t { sig_tsk = some current; sig_pid = pid_of current }),
          ret 0,
        )
        | some task ↦ (send_sig task t, ret 0)
      ]
      else (t, fail einval)
