-- ===== src/SerialMouse/Tests.antt =====
-- Runs of hardware/lab4_serial.c at concrete inputs.
use ldd_samples.Prelude.{◌≡◌, ◌⊎◌, refl, true, false, none, some, List, [], ◌∷◌, ◌++◌, arith}
use ldd_samples.Kernel.{ret, fail, eperm}
use ldd_samples.Kernel.Ledger.{irq, replay}
use ldd_samples.Kernel.Memory.{Mem, whole_copy, whole_copy-IsCopy}
use ldd_samples.Mouse.{Mouse}
use ldd_samples.SerialMouse.{Tracker, read}
use ldd_samples.SerialMouse.Tracking.{Move}
use ldd_samples.SerialMouse.Agreement.{int_at, followed, reset-moves-read}
use ldd_samples.SerialMouse.Lifecycle.{Answers, init, exit, serial_init-exit}

abbrev zeros : Mem
zeros i = 0

abbrev tracker : Tracker
tracker = record { interrupt_number = 5; xpos = 17; ypos = 4; byte_in = zeros; nbytes_in = 0 }

-- Three to the right and two up, behind a stray byte; then one to the left.
abbrev moves : List Move
moves =
    record { junk = 3 ∷ []; dx = 3; dy = 254; left = true; right = false }
    ∷ record { junk = []; dx = 255; dy = 0; left = false; right = false }
    ∷ []

reset-moves-read_example :
    (user' : Mem) × (read whole_copy (followed tracker moves) zeros 100 8 ≡ (user', ret 8))
    × (int_at user' 100 ≡ 2)
    × (int_at user' 104 ≡ 4294967294)
unfolding whole_copy
reset-moves-read_example =
    reset-moves-read whole_copy-IsCopy tracker moves zeros 100 8 refl
      (
        record { stray = (refl, tt); small = (omega arith, omega arith) },
        (record { stray = tt; small = (omega arith, omega arith) }, tt),
      )
      (omega arith) refl refl

abbrev full_mouse : Mouse
full_mouse = record { bytes = zeros; ready = false; num_byte_in = 0; user_pid = 0; disabled = 0 }

abbrev ports_busy : Answers
ports_busy = record {
  request_irq = true;
  request_region = false;
  register_chrdev_region = true;
  cdev_alloc = true;
}

serial_init-exit_example :
    (((init ports_busy).1 ≡ fail eperm) × (replay (init ports_busy).0 [] ≡ some (irq ∷ [])))
    ⊎ (((init ports_busy).1 ≡ ret 0) × (replay ((init ports_busy).0 ++ exit) [] ≡ none))
serial_init-exit_example = serial_init-exit ports_busy refl
