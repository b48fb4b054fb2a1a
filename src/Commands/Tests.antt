-- ===== src/Commands/Tests.antt =====
-- Calls of ioctl/lab3_ioctl_signal.c.
use ldd_samples.Prelude.{ℕ, ◌≡◌, refl, Option, some, List, [], ◌∷◌, ◌++◌, arith}
use ldd_samples.Commands.Signal.{Target, unlocked_ioctl, myioc_setsig, myioc_sendsig}
use ldd_samples.Commands.Sending.{Call, calls, AllTo, calls-AllTo}

-- The task of a process has its number.
abbrev find : ℕ → Option ℕ
find pid = some pid

abbrev aimed : Target
aimed = record { sig_pid = 7; sig_tsk = some 7; sig_tosend = 9; sent = [] }

abbrev from_others : List Call
from_others =
    record { current = 1; cmd = myioc_setsig; arg = 15 }
    ∷ record { current = 2; cmd = myioc_sendsig; arg = 0 }
    ∷ []

calls_test : (calls find (λ task. task) from_others aimed).sent ≡ (7, 15) ∷ []
unfolding calls unlocked_ioctl
calls_test = refl

calls-AllTo_example :
    (sent : List (ℕ × ℕ)) × ((calls find (λ task. task) from_others aimed).sent ≡ [] ++ sent)
    × AllTo 7 sent
    × ((calls find (λ task. task) from_others aimed).sig_tsk ≡ some 7)
calls-AllTo_example =
    calls-AllTo find (λ task. task) from_others aimed 7 refl
      ((λ e. omega (arith, e)), ((λ e. omega (arith, e)), tt))
