-- ===== src/Usb/Rounds.antt =====
-- What a call of `skel_read` and a disconnect of usb/usb-skeleton.c keep of a sound device.
use ldd_samples.Prelude.{
  ℕ, ◌≤◌, ◌≡◌, refl, ◌∙◌, Bool, true, false, Option, none, some, List, [], ◌∷◌, arith, ◌==◌,
  if-holds,
}
use ldd_samples.Kernel.{Errno, fail, restartsys}
use ldd_samples.Kernel.Memory.{Mem, CopyFn}
use ldd_samples.Usb.Dev.{Dev, read_callback}
use ldd_samples.Usb.Read.{
  Pass, retry, finished, pass, Wait, interrupted, completes, Turn, Outcome, waiting, returned,
  after_pass, round, read_rounds, read,
}
use ldd_samples.Usb.Invariant.{IsSound, IsKept, IsKept-then, read_callback-IsKept}

-- What the device sends in a turn is no longer than the buffer.
abbrev pub WaitFits : ℕ → Wait → Type 0
WaitFits size interrupted = Unit
WaitFits size (completes status actual packet) = actual ≤ size

abbrev pub AllFit : ℕ → List Turn → Type 0
AllFit size [] = Unit
AllFit size (t ∷ turns) = WaitFits size t.wait × AllFit size turns

abbrev pub pass_dev : Pass → Dev
pass_dev (retry d) = d
pass_dev (finished d user r) = d

abbrev pub outcome_dev : Outcome → Dev
outcome_dev (waiting d) = d
outcome_dev (returned d user r) = d

IsKept-refl : (d : Dev) → IsSound d → IsKept d d
IsKept-refl d s = record { sound = s; same = ground arith }

pub pass-IsKept :
    (copy : CopyFn) (submit : Option Errno) (d : Dev) (user : Mem) (buffer count : ℕ)
    → IsSound d
    → d.ongoing_read ≡ false
    → d.disconnected ≡ false
    → IsKept d (pass_dev (pass copy submit d user buffer count))
unfolding pass
pass-IsKept copy submit d user buffer count s idle here = ground arith

-- A pass that retries is followed by rounds that keep what they find.
after_pass-IsKept :
    (next : Dev → Mem → Outcome) (p : Pass) (e : Dev) (user : Mem)
    → IsKept e (pass_dev p)
    → ((d : Dev) → IsKept e d → IsKept d (outcome_dev (next d user)))
    → IsKept e (outcome_dev (after_pass next user p))
unfolding after_pass
after_pass-IsKept next (retry d) e user kept rest = IsKept-then e d _ kept (rest d kept)
after_pass-IsKept next (finished d user' r) e user kept rest = kept

read_callback-idle :
    (status : Option Errno) (actual : ℕ) (packet : Mem) (d : Dev)
    → (read_callback status actual packet d).ongoing_read ≡ false
unfolding read_callback
read_callback-idle none actual packet d = refl
read_callback-idle (some e) actual packet d = refl

module _ (copy : CopyFn) (nonblock : Bool) (buffer count : ℕ) where
  pass_next-IsKept :
      (next : Dev → Mem → Outcome) (submit : Option Errno) (e : Dev) (user : Mem)
      → IsSound e
      → e.ongoing_read ≡ false
      → e.disconnected ≡ false
      → ((d : Dev) → IsKept e d → IsKept d (outcome_dev (next d user)))
      → IsKept e (outcome_dev (after_pass next user (pass copy submit e user buffer count)))
  pass_next-IsKept next submit e user s idle here rest =
      after_pass-IsKept next _ e user (pass-IsKept copy submit e user buffer count s idle here) rest

  -- After the completion of the read under way, with what the round goes on to.
  completed-IsKept :
      (next : Dev → Mem → Outcome) (submit : Option Errno) (d : Dev) (user : Mem)
      (status : Option Errno) (actual : ℕ) (packet : Mem)
      → IsSound d
      → d.ongoing_read ≡ true
      → d.disconnected ≡ false
      → actual ≤ d.bulk_in_size
      → ((e : Dev) → IsKept d e → IsKept e (outcome_dev (next e user)))
      → IsKept d (
          outcome_dev (
            after_pass next user
              (pass copy submit (read_callback status actual packet d) user buffer count)))
  completed-IsKept next submit d user status actual packet s on here small rest =
      let e : Dev = read_callback status actual packet d in
      let one = read_callback-IsKept status actual packet d s on small in
      IsKept-then d e _ one (
        pass_next-IsKept next submit e user one.sound (read_callback-idle status actual packet d)
          (one.same.disconnected ∙ here) (λ f kept. rest f (IsKept-then d e f one kept)))

  round-IsKept :
      (next : Dev → Mem → Outcome) (t : Turn) (d : Dev) (user : Mem)
      → IsSound d
      → d.disconnected ≡ false
      → WaitFits d.bulk_in_size t.wait
      → ((e : Dev) → IsKept d e → IsKept e (outcome_dev (next e user)))
      → IsKept d (outcome_dev (round copy nonblock next t d user buffer count))
  unfolding round
  round-IsKept next t d user s here small rest =
      if-holds Kept d.ongoing_read _ _
        (λ on. if-holds Kept nonblock _ _ (λ _. IsKept-refl d s) (λ _. wait_on t.wait small on))
        (λ off. pass_next-IsKept next t.submit d user s off here rest)
    where
      Kept : Outcome → Type 0
      Kept o = IsKept d (outcome_dev o)

      wait_on :
          (w : Wait)
          → WaitFits d.bulk_in_size w
          → d.ongoing_read ≡ true
          → IsKept d (
              outcome_dev (elim w [
                | interrupted ↦ returned d user (fail restartsys)
                | completes status actual packet ↦
                    after_pass next user
                      (pass copy t.submit (read_callback status actual packet d) user buffer count)
              ]))
      wait_on interrupted fits on = IsKept-refl d s
      wait_on (completes status actual packet) fits on =
          completed-IsKept next t.submit d user status actual packet s on here fits rest

  rounds-IsKept :
      (turns : List Turn) (d : Dev) (user : Mem)
      → IsSound d
      → d.disconnected ≡ false
      → AllFit d.bulk_in_size turns
      → IsKept d (outcome_dev (read_rounds copy nonblock turns d user buffer count))
  unfolding read_rounds
  rounds-IsKept [] d user s here small = IsKept-refl d s
  rounds-IsKept (t ∷ rest) d user s here (now, later) =
      round-IsKept (λ d' user'. read_rounds copy nonblock rest d' user' buffer count) t d user s
        here now
        (λ e kept.
          rounds-IsKept rest e user kept.sound (kept.same.disconnected ∙ here)
            (rw kept.same.size later))

  pub read-IsKept :
      (locked : Bool) (turns : List Turn) (d : Dev) (user : Mem)
      → IsSound d
      → AllFit d.bulk_in_size turns
      → IsKept d (outcome_dev (read copy nonblock locked turns d user buffer count))
  unfolding read
  read-IsKept locked turns d user s small =
      if-holds Kept (count == 0) _ _ (λ _. IsKept-refl d s)
        (λ _.
          if-holds Kept locked _ _
            (λ _.
              if-holds Kept d.disconnected _ _ (λ _. IsKept-refl d s)
                (λ here. rounds-IsKept turns d user s here small))
            (λ _. IsKept-refl d s))
    where
      Kept : Outcome → Type 0
      Kept o = IsKept d (outcome_dev o)
