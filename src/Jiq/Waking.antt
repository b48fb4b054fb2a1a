-- ===== src/Jiq/Waking.antt =====
-- Which readers of timers/lab8_jiq.c are woken up: the proofs about Jiq/Sleep.
use ldd_samples.Prelude.{
  ℕ, zero, suc, ◌+◌, ◌≤◌, ◌<◌, ◌≡◌, ◌≢◌, ◌⊎◌, refl, sym, subst, ◌∙◌, Bool, true, false, Bool-cases,
  inl, inr, arith,
}
use ldd_samples.Jiq.Client.{limit, Line, jiq_print}
use ldd_samples.Jiq.Filling.{
  IsLine, IsPaged, IsFull, jiq_print-IsPaged, jiq_print-grows, jiq_print-stops, jiq_print-limit,
}
use ldd_samples.Jiq.Sleep.{
  Phase, begun, halfway, behind, back, Sys, start, first_call, second_call, run, Step, calls,
  calls_on, runs, returns, Reach, here, next, Reach-trans,
}

-- What a reader that waits first can rely on.
record IsServed (s : Sys) : Type 0 where
  paged : IsPaged s.client
  before : s.phase ≡ begun → s.queued ≡ false
  between : s.phase ≡ halfway → (s.queued ≡ false) × (s.waiting ≡ true)
  after :
      s.phase ≡ behind
      → (s.queued ≡ true) × (s.waiting ≡ true)
        ⊎ (s.queued ≡ false) × (s.waiting ≡ false) × (limit < s.client.len)
  at_end : s.phase ≡ back → (s.queued ≡ false) × (limit < s.client.len)

module _ (lines : ℕ → Line) (all : (j : ℕ) → IsLine (lines j)) where
  Step-IsServed : {s t : Sys} → Step true lines s t → IsServed s → IsServed t
  Step-IsServed (calls s at) v = record {
    paged = v.paged;
    before = λ e. ground (arith, e);
    between = λ e. (v.before at, refl);
    after = λ e. ground (arith, e);
    at_end = λ e. ground (arith, e);
  }
  Step-IsServed (calls_on s at) v = record {
    paged = v.paged;
    before = λ e. ground (arith, e);
    between = λ e. ground (arith, e);
    after = λ e. inl (refl, (v.between at).1);
    at_end = λ e. ground (arith, e);
  }
  Step-IsServed (returns s at awake) v = record {
    paged = v.paged;
    before = λ e. ground (arith, e);
    between = λ e. ground (arith, e);
    after = λ e. ground (arith, e);
    at_end = λ e. ground (arith, v.after at, awake);
  }
  Step-IsServed (runs s on) v =
      let paged = jiq_print-IsPaged (lines s.turn) s.client (all s.turn) v.paged in
      elim (Bool-cases (jiq_print (lines s.turn) s.client).1) [
        | inl again ↦ record {
          paged = paged;
          before = λ e. absurd (ground (arith, e, on, v.before));
          between = λ e. absurd (ground (arith, e, on, v.between));
          after = λ e. inl (again, ground (arith, again, e, on, v.after));
          at_end = λ e. absurd (ground (arith, e, on, v.at_end));
        }
        | inr stop ↦
            let (past, same) = jiq_print-stops (lines s.turn) s.client stop in
            record {
              paged = paged;
              before = λ e. stop;
              between = λ e. absurd (ground (arith, e, on, v.between));
              after = λ e. inr (stop, ground (arith, stop), ground (arith, past, same));
              at_end = λ e. (stop, ground (arith, past, same));
            }
      ]

  Reach-IsServed : {s t : Sys} → Reach true lines s t → IsServed s → IsServed t
  Reach-IsServed here v = v
  Reach-IsServed (next r step) v = Step-IsServed step (Reach-IsServed r v)

  -- Runs that are queued end, and have woken the reader up if it waits.
  drain :
      (waits_first : Bool) (fuel : ℕ) (s : Sys)
      → limit + 2 ≤ fuel + s.client.len
      → fuel ≢ 0
      → s.queued ≡ true
      → IsPaged s.client
      → (t : Sys) × Reach waits_first lines s t
        × (t.phase ≡ s.phase)
        × (t.queued ≡ false)
        × (t.waiting ≡ false)
        × IsFull t.client
  drain w zero s enough some_fuel on paged = absurd (some_fuel refl)
  drain w (suc fuel) s enough some_fuel on paged =
      elim (Bool-cases (jiq_print (lines s.turn) s.client).1) [
        | inl again ↦
            (let more : s.client.len + 1 ≤ (run lines s).client.len =
                jiq_print-grows (lines s.turn) s.client (all s.turn) again in
              let room : s.client.len ≤ limit = jiq_print-limit (lines s.turn) s.client again in
              let (t, r, phase, queued, waiting, full) =
                drain w fuel (run lines s) (omega (arith, enough, more))
                  (omega (arith, enough, room)) again
                  (jiq_print-IsPaged (lines s.turn) s.client (all s.turn) paged) in
              (t, Reach-trans (next here (runs s on)) r, phase, queued, waiting, full))
        | inr stop ↦
            (let (past, same) = jiq_print-stops (lines s.turn) s.client stop in
              (
                run lines s,
                next here (runs s on),
                refl,
                stop,
                ground (arith, stop),
                subst IsFull (sym same) (record { paged = paged; past = past }),
              ))
      ]

  -- The reader comes back, with the page full.
  CanReturn : Sys → Type 0
  CanReturn s = (u : Sys) × Reach true lines s u × (u.phase ≡ back) × IsFull u.client

  behind-CanReturn : (s : Sys) → s.phase ≡ behind → IsServed s → CanReturn s
  unfolding CanReturn
  behind-CanReturn s at v = elim (v.after at) [
    | inl (on, asleep) ↦
        (let (t, r, phase, queued, waiting, full) =
            drain true (limit + 2) s (omega arith) (omega arith) on v.paged in
          (record t { phase = back }, next r (returns t (phase ∙ at) waiting), refl, full))
    | inr (off, awake, past) ↦ (
      record s { phase = back },
      next here (returns s at awake),
      refl,
      record { paged = v.paged; past = past },
    )
  ]

  halfway-CanReturn : (s : Sys) → s.phase ≡ halfway → IsServed s → CanReturn s
  unfolding CanReturn
  halfway-CanReturn s at v =
      let (u, r, ended, full) =
        behind-CanReturn (second_call true s) refl (Step-IsServed (calls_on s at) v) in
      (u, Reach-trans (next here (calls_on s at)) r, ended, full)

  Phase-CanReturn : (phase : Phase) (s : Sys) → s.phase ≡ phase → IsServed s → CanReturn s
  unfolding CanReturn
  Phase-CanReturn begun s at v =
      let (u, r, ended, full) =
        halfway-CanReturn (first_call true s) refl (Step-IsServed (calls s at) v) in
      (u, Reach-trans (next here (calls s at)) r, ended, full)
  Phase-CanReturn halfway s at v = halfway-CanReturn s at v
  Phase-CanReturn behind s at v = behind-CanReturn s at v
  Phase-CanReturn back s at v = (s, here, at, record { paged = v.paged; past = (v.at_end at).1 })

  start-IsServed : (now delay : ℕ) → IsServed (start now delay)
  start-IsServed now delay = record {
    paged = record { place = refl; page = omega arith };
    before = λ e. refl;
    between = λ e. ground (arith, e);
    after = λ e. ground (arith, e);
    at_end = λ e. ground (arith, e);
  }

  -- Where every title and line has less than 128 bytes and every line has one: from every state that a read
  -- through a work queue comes to, by any interleaving with the runs of its work and without signals, there is a
  -- run at whose end the reader has returned, with more than the limit printed, all of it in its page together
  -- with the 0 behind it.
  pub work-returns :
      (now delay : ℕ) (t : Sys)
      → Reach true lines (start now delay) t
      → (u : Sys) × Reach true lines t u × (u.phase ≡ back) × IsFull u.client
  unfolding CanReturn
  work-returns now delay t r =
      Phase-CanReturn t.phase t refl (Reach-IsServed r (start-IsServed now delay))

  no_step :
      {s t : Sys}
      → Step false lines s t
      → s.phase ≡ behind
      → s.waiting ≡ true
      → s.queued ≡ false
      → ⊥
  no_step (calls s a) at asleep off = ground (arith, a, at)
  no_step (calls_on s a) at asleep off = ground (arith, a, at)
  no_step (runs s a) at asleep off = ground (arith, a, off)
  no_step (returns s a b) at asleep off = ground (arith, b, asleep)

  -- Where every title and line has less than 128 bytes and every line has one: a read through the tasklet can
  -- come to a state where the tasklet has run to its end, and woken up nobody, before the reader goes to sleep;
  -- from there, without signals, no step is possible.
  pub tasklet-lost :
      (now delay : ℕ)
      → (u : Sys) × Reach false lines (start now delay) u
        × (u.phase ≡ behind)
        × (u.waiting ≡ true)
        × (u.queued ≡ false)
        × IsFull u.client
        × ((v : Sys) → ¬ (Step false lines u v))
  tasklet-lost now delay =
      let s : Sys = first_call false (start now delay) in
      let (t, r, phase, queued, waiting, full) =
        drain false (limit + 2) s (omega arith) (omega arith) refl
          (record { place = refl; page = omega arith }) in
      (
        second_call false t,
        next (Reach-trans (next here (calls (start now delay) refl)) r) (calls_on t phase),
        refl,
        refl,
        queued,
        full,
        λ v step. no_step step refl refl queued,
      )
