-- ===== src/Commands/Sending.antt =====
-- Whom the ioctls of ioctl/lab3_ioctl_signal.c send their signals to.
use ldd_samples.Prelude.{
  ℕ, ◌≡◌, ◌≢◌, refl, ◌∙◌, ap, Bool, true, false, Option, some, List, [], ◌∷◌, ◌++◌, append_assoc,
  append-nil, sym, arith, ◌==◌,
}
use ldd_samples.Commands.Signal.{myioc_setpid, myioc_sendsig, Target, unlocked_ioctl}

-- A call: who makes it, with what command and argument.
pub record Call : Type 0 where
  pub current : ℕ
  pub cmd : ℕ
  pub arg : ℕ

-- All signals went to one task.
abbrev pub AllTo : ℕ → List (ℕ × ℕ) → Type 0
AllTo task [] = Unit
AllTo task ((to, sig) ∷ sent) = (to ≡ task) × AllTo task sent

abbrev pub NoSetpid : List Call → Type 0
NoSetpid [] = Unit
NoSetpid (c ∷ cs) = (c.cmd ≢ myioc_setpid) × NoSetpid cs

AllTo-append :
    (task : ℕ) (xs ys : List (ℕ × ℕ)) → AllTo task xs → AllTo task ys → AllTo task (xs ++ ys)
AllTo-append task [] ys h k = k
AllTo-append task ((to, sig) ∷ xs) ys (same, h) k = (same, AllTo-append task xs ys h k)

module _ (pid_task : ℕ → Option ℕ) (pid_of : ℕ → ℕ) where
  unfoldable pub calls : List Call → Target → Target
  calls [] t = t
  calls (c ∷ cs) t = calls cs (unlocked_ioctl pid_task pid_of c.current t c.cmd c.arg).0

  -- One call.
  One : Call → Target → ℕ → Type 0
  One c t task =
      (sent : List (ℕ × ℕ)) × ((unlocked_ioctl pid_task pid_of c.current t c.cmd c.arg).0.sent
        ≡ t.sent ++ sent)
      × AllTo task sent
      × ((unlocked_ioctl pid_task pid_of c.current t c.cmd c.arg).0.sig_tsk ≡ some task)

  call-One :
      (c : Call) (t : Target) (task : ℕ)
      → t.sig_tsk ≡ some task
      → c.cmd ≢ myioc_setpid
      → One c t task
  unfolding unlocked_ioctl One
  call-One c t task set keep = pick (c.cmd == myioc_sendsig) refl
    where
      pick : (b : Bool) → (c.cmd == myioc_sendsig) ≡ b → One c t task
      pick true e =
          ((task, t.sig_tosend) ∷ [], ground (arith, e, set), (refl, tt), ground (arith, e, set))
      pick false e =
          ([], ground (arith, e, set, keep, append-nil t.sent), tt, ground (arith, e, set, keep))

  -- Once a task is set, by a MYIOC_SETPID that found it or by the first process that sends without one, every
  -- signal until the next MYIOC_SETPID goes to it, whoever makes the calls.
  pub calls-AllTo :
      (cs : List Call) (t : Target) (task : ℕ)
      → t.sig_tsk ≡ some task
      → NoSetpid cs
      → (sent : List (ℕ × ℕ)) × ((calls cs t).sent ≡ t.sent ++ sent)
        × AllTo task sent
        × ((calls cs t).sig_tsk ≡ some task)
  unfolding calls One
  calls-AllTo [] t task set keeps = ([], sym (append-nil t.sent), tt, set)
  calls-AllTo (c ∷ cs) t task set (keep, keeps) =
      let (one, sends, to_task, set') = call-One c t task set keep in
      let (more, all, to_tasks, set'') =
        calls-AllTo cs (unlocked_ioctl pid_task pid_of c.current t c.cmd c.arg).0 task set' keeps in
      (
        one ++ more,
        all ∙ ap (λ xs. xs ++ more) sends ∙ append_assoc t.sent one more,
        AllTo-append task one more to_task to_tasks,
        set'',
      )
