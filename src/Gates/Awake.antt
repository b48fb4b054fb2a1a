-- ===== src/Gates/Awake.antt =====
-- Which readers of the labs with a flag a write wakes up.
use ldd_samples.Prelude.{ℕ, zero, suc, ◌+◌, ◌≡◌, refl, ◌∙◌, true, arith}
use ldd_samples.Gates.Flag.{
  is_woken, Lab, out, Sys, loaded, pass, finish, Step, enters, passes, sleeps, finishes, begins,
  ends, Reach, here, next,
}

-- With no write under way, the flag is not set over a reader that sleeps.
pub record IsAwake (s : Sys) : Type 0 where
  pub awake : s.writer ≡ out → s.flag ≡ true → s.sleeping ≡ 0

Step-IsAwake :
    {l : Lab} {s t : Sys}
    → is_woken l.sleeps_in ≡ true
    → l.set_first ≡ true
    → Step l s t
    → IsAwake s
    → IsAwake t
Step-IsAwake in_reach set_first (enters s) h = record { awake = h.awake }
Step-IsAwake in_reach set_first (passes s some_testing on) h = record { awake = h.awake }
Step-IsAwake in_reach set_first (sleeps s some_testing off) h = ground (arith, off)
Step-IsAwake in_reach set_first (finishes s some_behind) h = ground (arith, h)
Step-IsAwake in_reach set_first (begins s at) h = ground (arith, set_first)
Step-IsAwake in_reach set_first (ends s at) h = ground (arith, set_first, in_reach)

-- Where a write sets the flag first and its wake-up reaches the state that the readers sleep in: through any interleaving from the load
-- on, no reader sleeps while the flag is set and no write is under way.
pub set_first-IsAwake :
    (l : Lab) (t : Sys)
    → is_woken l.sleeps_in ≡ true
    → l.set_first ≡ true
    → Reach l loaded t
    → IsAwake t
set_first-IsAwake l t in_reach set_first here = record { awake = λ a b. refl }
set_first-IsAwake l t in_reach set_first (next r step) =
    Step-IsAwake in_reach set_first step (set_first-IsAwake l _ in_reach set_first r)

Reach-trans : {l : Lab} {s t u : Sys} → Reach l s t → Reach l t u → Reach l s u
Reach-trans r here = r
Reach-trans r (next q step) = next (Reach-trans r q) step

-- With the flag set, all readers at the test can pass it.
pass_all :
    (l : Lab) (k : ℕ) (s : Sys)
    → s.flag ≡ true
    → s.testing ≡ k
    → (t : Sys) × Reach l s t
      × (t.testing ≡ 0)
      × (t.behind ≡ s.behind + k)
      × (t.done ≡ s.done)
      × (t.sleeping ≡ s.sleeping)
      × ((t.writes ≡ s.writes) × (t.writer ≡ s.writer))
pass_all l zero s on at = (s, here, at, omega arith, refl, refl, (refl, refl))
pass_all l (suc k) s on at =
    let (t, r, testing, behind, done, sleeping, writes) =
      pass_all l k (pass s) on (omega (arith, at)) in
    (
      t,
      Reach-trans (next here (passes s (λ e. omega (arith, at, e)) on)) r,
      testing,
      omega (arith, behind),
      done,
      sleeping,
      writes,
    )

-- All readers behind the test can return.
finish_all :
    (l : Lab) (k : ℕ) (s : Sys)
    → s.behind ≡ k
    → (t : Sys) × Reach l s t
      × (t.testing ≡ s.testing)
      × (t.behind ≡ 0)
      × (t.done ≡ s.done + k)
      × (t.sleeping ≡ s.sleeping)
      × ((t.writes ≡ s.writes) × (t.writer ≡ s.writer))
finish_all l zero s at = (s, here, refl, at, omega arith, refl, (refl, refl))
finish_all l (suc k) s at =
    let (t, r, testing, behind, done, sleeping, writes) =
      finish_all l k (finish l s) (omega (arith, at)) in
    (
      t,
      Reach-trans (next here (finishes s (λ e. omega (arith, at, e)))) r,
      testing,
      behind,
      omega (arith, done),
      sleeping,
      writes,
    )

-- In a lab whose write sets the flag before it wakes the readers up and whose wake-up reaches the state that the
-- readers sleep in, as in lab4_wait_event.c and lab7_sleepy.c: from every state after the load with the flag set
-- and no write under way, the readers have a run at whose end every reader that had come has returned, with as
-- many writes over as at its start and none under way.
pub set_first-drains :
    (l : Lab) (t : Sys)
    → is_woken l.sleeps_in ≡ true
    → l.set_first ≡ true
    → Reach l loaded t
    → t.writer ≡ out
    → t.flag ≡ true
    → (u : Sys) × Reach l t u
      × (u.testing ≡ 0)
      × (u.sleeping ≡ 0)
      × (u.behind ≡ 0)
      × (u.done ≡ t.done + (t.behind + t.testing + t.sleeping))
      × ((u.writes ≡ t.writes) × (u.writer ≡ out))
set_first-drains l t in_reach set_first r at on =
    let awake = (set_first-IsAwake l t in_reach set_first r).awake at on in
    let (m, r1, testing, behind, done, sleeping, (writes, writer)) =
      pass_all l t.testing t on refl in
    let (u, r2, testing', behind', done', sleeping', (writes', writer')) =
      finish_all l m.behind m refl in
    (
      u,
      Reach-trans r1 r2,
      testing' ∙ testing,
      sleeping' ∙ sleeping ∙ awake,
      behind',
      omega (arith, done, done', behind, awake),
      (writes' ∙ writes, writer' ∙ writer ∙ at),
    )
