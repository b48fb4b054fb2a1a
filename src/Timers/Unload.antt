-- ===== src/Timers/Unload.antt =====
-- What is left of the timers of timers/lab2_multitimer.c when the module goes.
use ldd_samples.Prelude.{ℕ, zero, suc, ◌+◌, ◌*◌, ◌≡◌, ◌≢◌, ◌⊎◌, inl, inr, refl, arith}
use ldd_samples.Timers.Machine.{
  in_use, exiting, gone, Sys, loaded, expire, free_both, decrement, Step, writes, adds, expires,
  frees, decrements, leaves, exits, unloads, Reach, here, next,
}

pub record IsCounted (s : Sys) : Type 0 where
  pub timers : s.ntimers ≡ s.writing + s.pending + s.running + s.freed
  pub memory : s.objects ≡ 2 * (s.writing + s.pending + s.running)
  pub closed : s.stage ≢ in_use → s.writing ≡ 0
  pub unloaded : s.stage ≡ gone → s.ntimers ≡ 0

Step-IsCounted : {s t : Sys} → Step s t → IsCounted s → IsCounted t
Step-IsCounted (writes s at few) h = ground (arith, at, h)
Step-IsCounted (adds s some) h = ground (arith, some, h)
Step-IsCounted (expires s some) h = ground (arith, some, h)
Step-IsCounted (frees s some) h = ground (arith, some, h)
Step-IsCounted (decrements s some) h = ground (arith, some, h)
Step-IsCounted (leaves s some) h = ground (arith, some, h)
Step-IsCounted (exits s at none) h = ground (arith, at, none, h)
Step-IsCounted (unloads s at none) h = ground (arith, at, none, h)

Reach-IsCounted : (t : Sys) → Reach loaded t → IsCounted t
Reach-IsCounted t here = ground arith
Reach-IsCounted t (next r step) = Step-IsCounted step (Reach-IsCounted _ r)

-- Through any interleaving of writes and expiries: once `my_exit` is over, no timer waits to expire or has
-- anything left to free, and every object that the writes allocated has been freed.
pub gone-freed :
    (t : Sys)
    → Reach loaded t
    → t.stage ≡ gone
    → (t.pending ≡ 0) × (t.running ≡ 0) × (t.freed ≡ 0) × (t.objects ≡ 0)
gone-freed t r at =
    let h = Reach-IsCounted t r in
    let none_left : t.ntimers ≡ 0 = h.unloaded at in
    (
      omega (arith, h.timers, none_left),
      omega (arith, h.timers, none_left),
      omega (arith, h.timers, none_left),
      omega (arith, h.timers, h.memory, none_left),
    )

Reach-trans : {s t u : Sys} → Reach s t → Reach t u → Reach s u
Reach-trans r here = r
Reach-trans r (next q step) = next (Reach-trans r q) step

-- What there is still to do for a timer.
some_left : (p r f n : ℕ) → 3 * p + 2 * r + f ≡ suc n → (p ≢ 0) ⊎ ((r ≢ 0) ⊎ (f ≢ 0))
some_left (suc p) r f n e = inl (λ z. omega (arith, z))
some_left zero (suc r) f n e = inr (inl (λ z. omega (arith, z)))
some_left zero zero (suc f) n e = inr (inr (λ z. omega (arith, z)))
some_left zero zero zero n e = absurd (omega (arith, e))

drain :
    (n : ℕ) (s : Sys)
    → IsCounted s
    → s.stage ≡ exiting
    → 3 * s.pending + 2 * s.running + s.freed ≡ n
    → (t : Sys) × Reach s t × (t.stage ≡ gone)
drain zero s h at left =
    let closed : s.writing ≡ 0 = h.closed (λ e. ground (arith, e, at)) in
    (
      record s { stage = gone },
      next here (unloads s at (omega (arith, h.timers, left, closed))),
      refl,
    )
drain (suc n) s h at left = elim (some_left s.pending s.running s.freed n left) [
  | inl some ↦
      (let step = expires s some in
        let (t, r, ended) =
          drain n (expire s) (Step-IsCounted step h) at (omega (arith, left, some)) in
        (t, Reach-trans (next here step) r, ended))
  | inr (inl some) ↦
      (let step = frees s some in
        let (t, r, ended) =
          drain n (free_both s) (Step-IsCounted step h) at (omega (arith, left, some)) in
        (t, Reach-trans (next here step) r, ended))
  | inr (inr some) ↦
      (let step = decrements s some in
        let (t, r, ended) =
          drain n (decrement s) (Step-IsCounted step h) at (omega (arith, left, some)) in
        (t, Reach-trans (next here step) r, ended))
]

-- `my_exit` waits only for what comes by itself: from every state in its loop there is a run, of expiries and of
-- steps of the timers' functions, at whose end the module is gone.
pub exit-ends :
    (s : Sys) → Reach loaded s → s.stage ≡ exiting → (t : Sys) × Reach s t × (t.stage ≡ gone)
exit-ends s r at = drain (3 * s.pending + 2 * s.running + s.freed) s (Reach-IsCounted s r) at refl

-- In any state in which the unload waits for one timer alone, whose function is before its `atomic_dec`, the module
-- can be gone while that function is still to return.
pub gone-running :
    (s : Sys)
    → s.stage ≡ exiting
    → s.freed ≡ 1
    → s.ntimers ≡ 1
    → (t : Sys) × Reach s t × (t.stage ≡ gone) × (t.leaving ≡ s.leaving + 1)
gone-running s at one last = (
  record (decrement s) { stage = gone },
  next (next here (decrements s (λ z. omega (arith, z, one))))
      (unloads (decrement s) at (omega (arith, last))),
  refl,
  refl,
)
