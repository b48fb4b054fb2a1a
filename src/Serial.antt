-- ===== src/Serial.antt =====
-- The transmitter and the timer of serial/tiny_serial.c. UART_XMIT_SIZE is a page of 4096 bytes and
-- WAKEUP_CHARS 256, as serial_core.h has them.
pub mod Transmit
pub mod Agreement
mod Tests
use ldd_samples.Prelude.{
  ℕ, zero, suc, ◌+◌, ◌-◌, ◌*◌, ◌/◌, ◌%◌, Bool, true, false, Option, none, some, List, [], ◌∷◌, ltb,
  ◌==◌, ◌||◌, not, if◌then◌else◌,
}
use ldd_samples.Kernel.{Ret, ret, fail}
use ldd_samples.Kernel.Word.{add64, to_int}
use ldd_samples.Kernel.Memory.{Mem}
use ldd_samples.Tty.Lines.{bit}
use ldd_samples.Kernel.Ledger.{Effect, acquire, release, tty_driver, tty_device}

abbrev pub uart_xmit_size : ℕ
uart_xmit_size = 4096

-- `struct uart_port` as far as the driver uses it, with the circular buffer `xmit` of its state;
-- `stopped` is `uart_tx_stopped`, `timer` the time at which the timer expires while it is armed, and
-- `received` counts the characters given to the tty layer.
pub record Port : Type 0 where
  pub buf : Mem
  pub head : ℕ
  pub tail : ℕ
  pub x_char : ℕ
  pub stopped : Bool
  pub fifosize : ℕ
  pub tx : ℕ
  pub timer : Option ℕ
  pub received : ℕ

-- `uart_circ_chars_pending` and `uart_circ_empty`
abbrev pub pending : Port → ℕ
pending p = (p.head + uart_xmit_size - p.tail) % uart_xmit_size

abbrev pub empty : Port → Bool
empty p = p.head == p.tail

-- The character at the tail sent.
pub send : Port → Port
send p = record p { tail = (p.tail + 1) % uart_xmit_size; tx = to_int (p.tx + 1) }

-- The loop of `tiny_tx_chars`: one round, and as many more as `more` says, until the buffer is empty.
-- It gives the characters written.
pub drain : (more : ℕ) → Port → List ℕ × Port
unfolding send
drain zero p = (p.buf p.tail ∷ [], send p)
drain (suc more) p =
    let (chars, p') = drain more (send p) in
    if empty (send p) then (p.buf p.tail ∷ [], send p) else (p.buf p.tail ∷ chars, p')

-- `tiny_tx_chars`: the characters written, whether writers are woken up, and the port.
pub tx_chars : Port → List ℕ × Bool × Port
unfolding drain
tx_chars p =
    let (chars, p') = drain (p.fifosize / 2 - 1) p in
    if not (p.x_char == 0)
    then (p.x_char ∷ [], false, record p { tx = to_int (p.tx + 1); x_char = 0 })
    else if empty p || p.stopped
    then ([], false, p)
    else (chars, ltb (pending p') 256, p')

-- `tiny_timer`: it arms itself again before it transmits.
pub timer : (hz jiffies : ℕ) → Port → List ℕ × Bool × Port
unfolding tx_chars
timer hz jiffies p =
    tx_chars (record p { received = p.received + 1; timer = some (add64 jiffies (hz * 2)) })

pub startup : (hz jiffies : ℕ) → Port → Port × Ret
startup hz jiffies p = (record p { timer = some (add64 jiffies (hz * 2)) }, ret 0)

pub shutdown : Port → Port
shutdown p = record p { timer = none }

-- `tiny_init`, by what `uart_register_driver` and `uart_add_one_port` return.
pub init : (register_driver add_one_port : Ret) → List Effect × Ret
init (fail e) add_one_port = ([], fail e)
init (ret _) (fail e) = (acquire tty_driver ∷ release tty_driver ∷ [], fail e)
init (ret _) (ret _) = (acquire tty_driver ∷ acquire (tty_device 0) ∷ [], ret 0)

-- What `tiny_set_termios` reports: data bits, parity (0 for none, 1 for odd, 2 for even), stop bits
-- and RTS/CTS. The baud rate and the divisor that it computes are not used.
pub record Settings : Type 0 where
  pub data_bits : ℕ
  pub parity : ℕ
  pub stop_bits : ℕ
  pub rtscts : Bool

-- The masks CSIZE, CSTOPB, PARENB, PARODD and CRTSCTS are 0x30, 0x40, 0x100, 0x200 and 2 ^ 31.
pub set_termios : (cflag : ℕ) → Settings
set_termios cflag =
    let size = cflag / 0x10 % 4 in
    record {
      data_bits = if size == 0 then 5 else if size == 1 then 6 else if size == 2 then 7 else 8;
      parity = if bit 0x100 cflag then (if bit 0x200 cflag then 1 else 2) else 0;
      stop_bits = if bit 0x40 cflag then 2 else 1;
      rtscts = bit 0x8000_0000 cflag;
    }
