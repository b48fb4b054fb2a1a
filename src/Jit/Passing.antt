-- ===== src/Jit/Passing.antt =====
-- How long the two loops of `jit_fn` in timers/lab9_jit.c take, also where `jiffies` wraps.
use ldd_samples.Prelude.{
  ℕ, zero, suc, ◌+◌, ◌%◌, ◌^◌, ◌≤◌, ◌<◌, ◌≡◌, ◌⊎◌, inl, inr, refl, ◌∙◌, ap, Bool, true, false,
  Option, none, some, arith, ltb, if◌then◌else◌,
}
use ldd_samples.Kernel.Word.{add64}
use ldd_samples.Jit.Delay.{time_before, JitFile, jit_busy, jit_sched, spin, delayed, jit_fn}

-- A clock that goes on by less than 2 ^ 62 ticks from reading to reading.
pub record IsClock (ticks : ℕ → ℕ) : Type 0 where
  pub forward : (i : ℕ) → ticks i ≤ ticks (i + 1)
  pub steady : (i : ℕ) → ticks (i + 1) < ticks i + 2 ^ 62

-- Its 64 bits.
abbrev pub jiffies_of : (ℕ → ℕ) → ℕ → ℕ
jiffies_of ticks i = ticks i % 2 ^ 64

time_before-ltb :
    (a b : ℕ) → a < b + 2 ^ 63 → b ≤ a + 2 ^ 63 → time_before (a % 2 ^ 64) (b % 2 ^ 64) ≡ ltb a b
time_before-ltb a b near near' = ground arith

-- The first reading from `i` on that is past the end.
pub record IsFirst (ticks : ℕ → ℕ) (i end k : ℕ) : Type 0 where
  pub from : i ≤ k
  pub past : end ≤ ticks k
  pub first : (j : ℕ) → i ≤ j → j < k → ticks j < end

-- The loop ends behind that reading.
abbrev Ends : (ticks : ℕ → ℕ) (fuel i end : ℕ) → Type 0
Ends ticks fuel i end =
    (k : ℕ) × (spin fuel (jiffies_of ticks) i (end % 2 ^ 64) ≡ some (k + 1)) × IsFirst ticks i end k

earlier-first :
    {ticks : ℕ → ℕ} {i end k : ℕ} (j : ℕ)
    → ticks i < end
    → IsFirst ticks (i + 1) end k
    → i ≤ j
    → j < k
    → ticks j < end
earlier-first {ticks} {i} {end} {k} j before h a b = elim (cases i j a) [
  | inl same ↦ omega (arith, before, ap ticks same)
  | inr more ↦ h.first j more b
]
  where
    cases : (i j : ℕ) → i ≤ j → (i ≡ j) ⊎ (i + 1 ≤ j)
    cases i j le = ground arith

spin-step :
    {ticks : ℕ → ℕ} (fuel i end : ℕ)
    → end ≤ ticks i + 2 ^ 62
    → ticks i < end + 2 ^ 62
    → (ticks i < end → Ends ticks fuel (i + 1) end)
    → Ends ticks (suc fuel) i end
unfolding spin
spin-step {ticks} fuel i end near near' later = split (ltb (ticks i) end) refl
  where
    test :
        (b : Bool)
        → ltb (ticks i) end ≡ b
        → spin (suc fuel) (jiffies_of ticks) i (end % 2 ^ 64)
          ≡ (if b then spin fuel (jiffies_of ticks) (i + 1) (end % 2 ^ 64) else some (i + 1))
    test b e =
        ap (λ c. if c then spin fuel (jiffies_of ticks) (i + 1) (end % 2 ^ 64) else some (i + 1))
          (time_before-ltb (ticks i) end (omega (arith, near')) (omega (arith, near)) ∙ e)

    split : (b : Bool) → ltb (ticks i) end ≡ b → Ends ticks (suc fuel) i end
    split false e = (
      i,
      test false e,
      record {
        from = omega arith;
        past = ground (arith, e);
        first = λ j a b. absurd (omega (arith, a, b));
      },
    )
    split true e =
        let before : ticks i < end = ground (arith, e) in
        let (k, runs, first) = later before in
        (
          k,
          test true e ∙ runs,
          record {
            from = omega (arith, first.from);
            past = first.past;
            first = λ j a b. earlier-first j before first a b;
          },
        )

inside : (ticks : ℕ → ℕ) {end : ℕ} (i n : ℕ) → i ≤ n → end ≤ ticks n → ticks i < end → i + 1 ≤ n
inside ticks i n le over before = elim (cases i n le) [
  | inl same ↦ absurd (omega (arith, over, before, ap ticks same))
  | inr more ↦ more
]
  where
    cases : (i n : ℕ) → i ≤ n → (i ≡ n) ⊎ (i + 1 ≤ n)
    cases i n le = ground arith

spin-Ends :
    {ticks : ℕ → ℕ} (clock : IsClock ticks) (fuel n i end : ℕ)
    → i ≤ n
    → n < i + fuel
    → end ≤ ticks n
    → end ≤ ticks i + 2 ^ 62
    → ticks i < end + 2 ^ 62
    → Ends ticks fuel i end
spin-Ends clock zero n i end le lt over near near' = absurd (omega (arith, le, lt))
spin-Ends {ticks} clock (suc fuel) n i end le lt over near near' =
    spin-step fuel i end near near' (λ before.
      spin-Ends clock fuel n (i + 1) end (inside ticks i n le over before) (omega (arith, lt)) over
        (omega (arith, near, clock.forward i)) (omega (arith, before, clock.steady i)))

-- The two files whose loops test the clock.
pub data IsSpinning : JitFile → Type 0 where
  busy : IsSpinning jit_busy
  sched : IsSpinning jit_sched

module _ {ticks : ℕ → ℕ} (clock : IsClock ticks) (wait : ℕ → ℕ) (fuel n delay : ℕ) where
  -- With a delay of less than 2 ^ 31 ticks, and a clock that by its reading `n` has gone on by the delay: `n` times
  -- round are enough for either loop, and it ends behind the first reading at which the delay is over, wherever
  -- the 64 bits of `jiffies` wrap. The line has the first reading and the one behind that.
  pub jit_fn-delays :
      (file : JitFile)
      → IsSpinning file
      → delay < 2 ^ 31
      → 1 ≤ n
      → n ≤ fuel
      → ticks 0 + delay ≤ ticks n
      → (k : ℕ) × (jit_fn fuel (jiffies_of ticks) wait delay file
          ≡ some (jiffies_of ticks 0, jiffies_of ticks (k + 1)))
        × IsFirst ticks 1 (ticks 0 + delay) k
  unfolding jit_fn delayed
  jit_fn-delays file spinning short any enough over =
      let (k, runs, first) =
        spin-Ends clock fuel n 1 (ticks 0 + delay) any (omega (arith, enough)) over
          (omega (arith, short, clock.forward 0)) (omega (arith, clock.steady 0)) in
      let sum : add64 (jiffies_of ticks 0) delay ≡ (ticks 0 + delay) % 2 ^ 64 = omega arith in
      let line : spin fuel (jiffies_of ticks) 1 (add64 (jiffies_of ticks 0) delay) ≡ some (k + 1) =
        ap (spin fuel (jiffies_of ticks) 1) sum ∙ runs in
      (k, last file k spinning line, first)
    where
      last :
          (file : JitFile) (k : ℕ)
          → IsSpinning file
          → spin fuel (jiffies_of ticks) 1 (add64 (jiffies_of ticks 0) delay) ≡ some (k + 1)
          → jit_fn fuel (jiffies_of ticks) wait delay file
            ≡ some (jiffies_of ticks 0, jiffies_of ticks (k + 1))
      last file k busy e =
          ap
            (λ (o : Option ℕ). elim o [
              | none ↦ none
              | some i ↦ some (jiffies_of ticks 0, jiffies_of ticks i)
            ])
            e
      last file k sched e =
          ap
            (λ (o : Option ℕ). elim o [
              | none ↦ none
              | some i ↦ some (jiffies_of ticks 0, jiffies_of ticks i)
            ])
            e
