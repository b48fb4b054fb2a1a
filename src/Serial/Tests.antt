-- ===== src/Serial/Tests.antt =====
-- Runs of serial/tiny_serial.c at concrete inputs.
use ldd_samples.Prelude.{◌+◌, ◌≡◌, refl, false, none, ◌++◌, arith}
use ldd_samples.Serial.{Port, pending, tx_chars}
use ldd_samples.Serial.Transmit.{IsPort, queue, tx_chars-queue}

-- Six characters wait, across the end of the buffer.
abbrev wrapped : Port
wrapped = record {
  buf = (λ a. a);
  head = 3;
  tail = 4093;
  x_char = 0;
  stopped = false;
  fifosize = 8;
  tx = 0;
  timer = none;
  received = 0;
}

wrapped-IsPort : IsPort wrapped
wrapped-IsPort = record { head_in = omega arith; tail_in = omega arith }

tx_chars-queue_example :
    (queue wrapped ≡ (tx_chars wrapped).0 ++ queue (tx_chars wrapped).2)
    × (pending (tx_chars wrapped).2 + 4 ≡ 6)
    × IsPort (tx_chars wrapped).2
tx_chars-queue_example = tx_chars-queue wrapped wrapped-IsPort refl refl
