-- ===== src/Jit/Delay.antt =====
-- `jit_fn` of timers/lab9_jit.c: one line of data after a delay. `jiffies` is a clock, of which the model takes the
-- readings one after the other.
use ldd_samples.Prelude.{ℕ, zero, suc, ◌+◌, Bool, Option, none, some, if◌then◌else◌}
use ldd_samples.Kernel.Word.{add64, sub64, is_negative64}

-- `time_before` of the kernel's jiffies.h
abbrev pub time_before : ℕ → ℕ → Bool
time_before a b = is_negative64 (sub64 a b)

-- `enum jit_files`
pub data JitFile : Type 0 where
  jit_busy jit_sched jit_queue jit_schedto : JitFile

-- `while (time_before(jiffies, j1))`, from reading `i` on: the number of the next reading. On fuel.
unfoldable pub spin : ℕ → (jiffies : ℕ → ℕ) → (i j1 : ℕ) → Option ℕ
spin zero jiffies i j1 = none
spin (suc fuel) jiffies i j1 =
    let rest = spin fuel jiffies (i + 1) j1 in
    if time_before (jiffies i) j1 then rest else some (i + 1)

-- The number of the reading behind the delay. The kernel's two waits end at the reading that `wait` gives.
unfoldable pub delayed :
    ℕ → (jiffies : ℕ → ℕ) → (wait : (delay : ℕ) → ℕ) → (delay : ℕ) → JitFile → (j1 : ℕ) → Option ℕ
unfolding spin
delayed fuel jiffies wait delay jit_busy j1 = spin fuel jiffies 1 j1
delayed fuel jiffies wait delay jit_sched j1 = spin fuel jiffies 1 j1
delayed fuel jiffies wait delay jit_queue j1 = some (wait delay)
delayed fuel jiffies wait delay jit_schedto j1 = some (wait delay)

-- The two numbers that the line has; `none` where the fuel does not last.
unfoldable pub jit_fn :
    ℕ → (jiffies : ℕ → ℕ) → (wait : (delay : ℕ) → ℕ) → (delay : ℕ) → JitFile → Option (ℕ × ℕ)
unfolding delayed
jit_fn fuel jiffies wait delay file =
    let j0 = jiffies 0 in
    elim (delayed fuel jiffies wait delay file (add64 j0 delay)) [
      | none ↦ none
      | some i ↦ some (j0, jiffies i)
    ]
