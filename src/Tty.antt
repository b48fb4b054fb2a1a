-- ===== src/Tty.antt =====
-- The serial driver of serial/tiny_tty.c: the operations on a port and the timer that feeds it. The
-- ioctls are in Tty/Ioctl, the modem lines and termios in Tty/Lines, init and exit in Tty/Lifecycle.
pub mod Lines
pub mod Ioctl
pub mod Lifecycle
pub mod Port
mod Tests
use ldd_samples.Prelude.{
  ℕ, ◌*◌, Bool, true, false, Option, none, some, List, ◌∷◌, ◌==◌, if◌then◌else◌, not,
}
use ldd_samples.Kernel.{Ret, ret, fail, einval, enodev}
use ldd_samples.Kernel.Word.{add64}

-- `struct async_icount`
pub record Icount : Type 0 where
  pub cts : ℕ
  pub dsr : ℕ
  pub rng : ℕ
  pub dcd : ℕ
  pub rx : ℕ
  pub tx : ℕ
  pub frame : ℕ
  pub overrun : ℕ
  pub parity : ℕ
  pub brk : ℕ
  pub buf_overrun : ℕ

-- The fields of `struct serial_struct` that the driver reads.
pub record Serial : Type 0 where
  pub type_ : ℕ
  pub line : ℕ
  pub port : ℕ
  pub irq : ℕ
  pub xmit_fifo_size : ℕ
  pub baud_base : ℕ
  pub custom_divisor : ℕ
  pub hub6 : ℕ
  pub io_type : ℕ

-- `struct tiny_serial`: `count` is `port.count`, `timer` the time at which the timer expires while it
-- is armed, and `received` the characters that the port has given to the tty layer, the last one
-- first.
pub record Tiny : Type 0 where
  pub count : ℕ
  pub timer : Option ℕ
  pub received : List ℕ
  pub msr : ℕ
  pub mcr : ℕ
  pub serial : Serial
  pub icount : Icount

-- A tty with its entry of `tiny_table`; `driver_data` says that the tty points to the entry, and not
-- to NULL.
pub record Tty : Type 0 where
  pub tiny : Tiny
  pub driver_data : Bool

-- `#define TINY_DATA_CHARACTER 't'`
abbrev pub tiny_data_character : ℕ
tiny_data_character = b't'

-- `tiny_timer`, when the timer expires.
pub timer : (hz jiffies : ℕ) → Tiny → Tiny
timer hz jiffies t = record t {
  received = tiny_data_character ∷ t.received;
  timer = some (add64 jiffies (hz * 2));
}

pub activate : (hz jiffies : ℕ) → Tiny → Tiny × Ret
activate hz jiffies t = (record t { timer = some (add64 jiffies (hz * 2)) }, ret 0)

pub shutdown : Tiny → Tiny
shutdown t = record t { timer = none }

-- `tty_port_open` and `tty_port_close` of the kernel, with the port's operation that each may call.
pub record PortOps : Type 0 where
  pub port_open : (Tiny → Tiny × Ret) → Tiny → Tiny × Ret
  pub port_close : (Tiny → Tiny) → Tiny → Tiny

abbrev is_ok : Ret → Bool
is_ok (ret n) = n == 0
is_ok (fail e) = false

pub open_tty : PortOps → (hz jiffies : ℕ) → Tty → Tty × Ret
unfolding activate
open_tty ops hz jiffies t =
    let (tiny, status) = ops.port_open (activate hz jiffies) t.tiny in
    (record { tiny = tiny; driver_data = is_ok status }, status)

pub close : PortOps → Tty → Tty
unfolding shutdown
close ops t = if t.driver_data then record t { tiny = ops.port_close shutdown t.tiny } else t

-- `buffer` goes to the log alone.
pub write : Tty → (count : ℕ) → Ret
write t count =
    if not t.driver_data then fail enodev else if t.tiny.count == 0 then fail einval else ret count

pub write_room : Tty → Ret
write_room t =
    if not t.driver_data then fail enodev else if t.tiny.count == 0 then fail einval else ret 255
