-- ===== src/Jit/Tests.antt =====
-- Runs of timers/lab9_jit.c at concrete inputs.
use ldd_samples.Prelude.{ℕ, ◌+◌, ◌^◌, ◌-◌, ◌≡◌, ◌≢◌, ◌⊎◌, refl, false, some, arith}
use ldd_samples.Jit.Delay
use ldd_samples.Jit.Passing
use ldd_samples.Jit.Timer
use ldd_samples.Jit.Lines

-- A clock that is about to wrap, one tick for a reading.
abbrev late : ℕ → ℕ
late i = 2 ^ 64 - 2 + i

late-IsClock : Passing.IsClock late
late-IsClock = record { forward = λ i. omega arith; steady = λ i. omega arith }

jit_fn-delays_example :
    (k : ℕ) × (Delay.jit_fn 5 (Passing.jiffies_of late) (λ d. d) 4 Delay.jit_sched
      ≡ some (2 ^ 64 - 2, Passing.jiffies_of late (k + 1)))
    × Passing.IsFirst late 1 (2 ^ 64 + 2) k
jit_fn-delays_example =
    Passing.jit_fn-delays late-IsClock (λ d. d) 5 4 4 Delay.jit_sched Passing.sched (omega arith)
      (omega arith) (omega arith) (omega arith)

-- One run of the timer behind another, up to its test.
abbrev run : Timer.Sys → Timer.Sys
run s = Timer.print (Timer.expire s)

abbrev again : Timer.Sys → Timer.Sys
again s = Timer.add_timer (Timer.count_on (run s))

again-Reach :
    {s : Timer.Sys} (t : Timer.Sys)
    → Timer.Reach s t
    → t.timer ≡ Timer.pending
    → t.loops ≢ 1
    → Timer.Reach s (again t)
again-Reach t r at more =
    Timer.next
      (Timer.next
        (Timer.next (Timer.next r (Timer.expires t at)) (Timer.prints (Timer.expire t) refl))
        (Timer.counts_on (run t) refl more))
      (Timer.adds (Timer.count_on (run t)) refl)

abbrev four_runs : Timer.Sys
four_runs = again (again (again (again Timer.registered)))

four_runs-Reach : Timer.Reach Timer.registered four_runs
four_runs-Reach =
    let r1 : Timer.Reach Timer.registered (again Timer.registered) =
      again-Reach Timer.registered Timer.here refl (λ e. omega (arith, e)) in
    let r2 : Timer.Reach Timer.registered (again (again Timer.registered)) =
      again-Reach (again Timer.registered) r1 refl (λ e. omega (arith, e)) in
    let r3 : Timer.Reach Timer.registered (again (again (again Timer.registered))) =
      again-Reach (again (again Timer.registered)) r2 refl (λ e. omega (arith, e)) in
    again-Reach (again (again (again Timer.registered))) r3 refl (λ e. omega (arith, e))

abbrev last_run : Timer.Sys
last_run = Timer.count_out (run four_runs)

abbrev served : Timer.Sys
served = Timer.finish (Timer.goto Timer.behind last_run)

served-Reach : Timer.Reach Timer.registered served
served-Reach =
    Timer.next
      (Timer.next
        (Timer.next
          (Timer.next (Timer.next four_runs-Reach (Timer.expires four_runs refl))
            (Timer.prints (Timer.expire four_runs) refl))
          (Timer.counts_out (run four_runs) refl refl))
        (Timer.passes last_run refl refl))
      (Timer.finishes (Timer.goto Timer.behind last_run) refl refl)

returned-lines_example :
    (served.lines ≡ 6) × ((served.timer ≡ Timer.waking) ⊎ (served.timer ≡ Timer.over))
returned-lines_example = Lines.returned-lines served served-Reach refl

wake-freed_example :
    (t : Timer.Sys) × Timer.Reach (run four_runs) t × (t.live ≡ false) × (t.timer ≡ Timer.waking)
wake-freed_example = Lines.wake-freed (run four_runs) refl refl refl refl
