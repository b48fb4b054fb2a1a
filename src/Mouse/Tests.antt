-- ===== src/Mouse/Tests.antt =====
-- Runs of the mouse driver at concrete inputs.
use ldd_samples.Mouse.Lifecycle.{Answers}
use ldd_samples.Prelude.{ℕ, ◌≡◌, refl, true, false, [], ◌∷◌, arith, ◌==◌, if◌then◌else◌}
use ldd_samples.Kernel.{ret}
use ldd_samples.Kernel.Memory.{Mem, whole_copy, whole_copy-IsCopy}
use ldd_samples.Mouse.{Mouse, interrupt, returned, read}
use ldd_samples.Mouse.Reading.{IsPutZero, interrupt-read}

abbrev quiet : Mouse
quiet = record { bytes = λ i. 9; ready = false; num_byte_in = 0; user_pid = 0; disabled = 0 }

abbrev loaded : Mouse
loaded = record quiet { ready = true }

abbrev memory : Mem
memory a = 1

abbrev put_zero : Mem → ℕ → Mem
put_zero user a b = if b == a then 0 else user b

put_zero-IsPutZero : IsPutZero put_zero
put_zero-IsPutZero = record { here = λ user a. ground arith; frame = λ user a b ne. ground arith }

interrupt-read_example :
    (m' : Mouse) × (user' : Mem) × (read whole_copy put_zero false false false
        (interrupt quiet (5 ∷ 0x45 ∷ 3 ∷ 4 ∷ [])).0
        memory
        50
        3
      ≡ returned m' user' (ret 3))
    × (user' 51 ≡ 3)
unfolding whole_copy
interrupt-read_example =
    interrupt-read whole_copy-IsCopy put_zero-IsPutZero (5 ∷ []) quiet 0x45 3 4 memory 50 1 refl
      (refl, tt) refl refl (omega arith)

abbrev granted : Answers
granted = record {
  request_irq = true;
  request_region = true;
  first_cdev_alloc = true;
  alloc_chrdev_region = true;
  cdev_alloc = true;
  cdev_add = true;
}
