-- ===== src/Serial/Transmit.antt =====
-- The transmitter of serial/tiny_serial.c against the queue of characters that its circular buffer
-- stands for.
use ldd_samples.Prelude.{
  ℕ, zero, suc, ◌+◌, ◌-◌, ◌/◌, ◌%◌, ◌<◌, ◌≡◌, refl, ◌∙◌, ap, true, false, List, [], ◌∷◌, ◌++◌,
  arith, min, max, ltb, Bool-cases, inl, inr,
}
use ldd_samples.Kernel.Memory.{Mem}
use ldd_samples.Serial.{Port, uart_xmit_size, pending, empty, send, drain, tx_chars}

-- `n` characters from a place of the circular buffer on.
abbrev pub chars : Mem → (tail n : ℕ) → List ℕ
chars buf tail zero = []
chars buf tail (suc n) = buf tail ∷ chars buf ((tail + 1) % uart_xmit_size) n

-- The queue that waits.
abbrev pub queue : Port → List ℕ
queue p = chars p.buf p.tail (pending p)

-- Both ends lie in the buffer.
pub record IsPort (p : Port) : Type 0 where
  pub head_in : p.head < uart_xmit_size
  pub tail_in : p.tail < uart_xmit_size

-- A loop's work: the characters that it wrote are the first of the queue, and the others wait on.
record IsSent (p : Port) (m : ℕ) (out : List ℕ × Port) : Type 0 where
  written : queue p ≡ out.0 ++ queue out.1
  left : pending out.1 + m ≡ pending p
  sound : IsPort out.1

send-pending :
    (p : Port) → IsPort p → 0 < pending p → (pending (send p) + 1 ≡ pending p) × IsPort (send p)
unfolding send
send-pending p is_port some_left = (
  omega (arith, is_port.head_in, is_port.tail_in),
  record { head_in = is_port.head_in; tail_in = omega arith },
)

send-queue : (p : Port) → IsPort p → 0 < pending p → queue p ≡ p.buf p.tail ∷ queue (send p)
unfolding send
send-queue p is_port some_left =
    let step : pending p ≡ suc (pending (send p)) =
      omega (arith, is_port.head_in, is_port.tail_in) in
    ap (λ n. chars p.buf p.tail n) step

empty-pending : (p : Port) → IsPort p → empty p ≡ true → pending p ≡ 0
empty-pending p is_port none_left = ground arith

full-pending : (p : Port) → IsPort p → empty p ≡ false → 0 < pending p
full-pending p is_port some_left = ground (arith, is_port.head_in, is_port.tail_in)

drain-IsSent :
    (more : ℕ) (p : Port)
    → IsPort p
    → 0 < pending p
    → IsSent p (min (more + 1) (pending p)) (drain more p)
unfolding drain
drain-IsSent zero p is_port some_left =
    let (less, sound) = send-pending p is_port some_left in
    record { written = send-queue p is_port some_left; left = omega arith; sound = sound }
drain-IsSent (suc more) p is_port some_left =
    let (less, sound) = send-pending p is_port some_left in
    elim (Bool-cases (empty (send p))) [
      | inl e ↦ rw e (record {
        written = send-queue p is_port some_left;
        left = omega (arith, less, empty-pending (send p) sound e);
        sound = sound;
      })
      | inr e ↦
          let rest = drain-IsSent more (send p) sound (full-pending (send p) sound e) in
          rw e (record {
            written = send-queue p is_port some_left ∙ ap (λ cs. p.buf p.tail ∷ cs) rest.written;
            left = omega (arith, rest.left);
            sound = rest.sound;
          })
    ]

tx_chars-run :
    (p : Port)
    → p.x_char ≡ 0
    → p.stopped ≡ false
    → (empty p ≡ true → tx_chars p ≡ ([], false, p))
      × (empty p ≡ false
          → let d = drain (p.fifosize / 2 - 1) p in tx_chars p ≡ (d.0, ltb (pending d.1) 256, d.1))
unfolding tx_chars
tx_chars-run p plain running = (λ e. ground arith, λ e. ground arith)

-- With no control character to send, the transmitter not stopped and both ends inside the buffer,
-- the transmitter writes the first characters of the queue, in their order, and leaves the others
-- waiting: it writes half of what the fifo holds, but at least one, or all that wait if those are
-- fewer. Both ends stay inside the buffer.
pub tx_chars-queue :
    (p : Port)
    → IsPort p
    → p.x_char ≡ 0
    → p.stopped ≡ false
    → (queue p ≡ (tx_chars p).0 ++ queue (tx_chars p).2)
      × (pending (tx_chars p).2 + min (max 1 (p.fifosize / 2)) (pending p) ≡ pending p)
      × IsPort (tx_chars p).2
tx_chars-queue p is_port plain running = elim (Bool-cases (empty p)) [
  | inl e ↦
      rw ((tx_chars-run p plain running).0 e)
        (refl, omega (arith, empty-pending p is_port e), is_port)
  | inr e ↦
      let sent = drain-IsSent (p.fifosize / 2 - 1) p is_port (full-pending p is_port e) in
      rw ((tx_chars-run p plain running).1 e) (sent.written, omega (arith, sent.left), sent.sound)
]
