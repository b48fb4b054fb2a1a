-- ===== src/SerialMouse.antt =====
-- The driver of hardware/lab4_serial.c, which follows a serial mouse: an interrupt for each byte, the two
-- positions that the packets move, and the file operations.
pub mod Tracking
pub mod Agreement
pub mod Lifecycle
mod Tests
use ldd_samples.Prelude.{
  ℕ, ◌+◌, ◌-◌, ◌*◌, ◌/◌, ◌%◌, ◌^◌, Bool, List, [], ◌∷◌, ltb, ◌==◌, ◌||◌, not, if◌then◌else◌,
}
use ldd_samples.Kernel.{Ret, ret, fail, einval, efault}
use ldd_samples.Kernel.Memory.{Mem, CopyFn}
use ldd_samples.Kernel.Word.{to_int}
use ldd_samples.Mouse.{has_magic, decode_dx, decode_dy}

-- The module's variables and the static ones of the handler. The positions are patterns of 32 bits.
pub record Tracker : Type 0 where
  pub interrupt_number : ℕ
  pub xpos : ℕ
  pub ypos : ℕ
  pub byte_in : Mem
  pub nbytes_in : ℕ

-- A `signed char` as an `int`.
abbrev pub extend_char : ℕ → ℕ
extend_char b = if ltb b 128 then b else b + (2 ^ 32 - 256)

-- A byte put into the packet, unless it should be the first and is not one.
pub accept : Tracker → ℕ → Tracker
accept m byte =
    if ltb 0 m.nbytes_in || has_magic byte
    then record m {
      byte_in = (λ i. if i == m.nbytes_in then byte else m.byte_in i);
      nbytes_in = m.nbytes_in + 1;
    }
    else m

-- `my_interrupt`, with the byte that `inb` gives. Movements have 8 bits.
pub interrupt : Tracker → ℕ → Tracker
unfolding accept
interrupt m byte =
    let m' = accept (record m { interrupt_number = to_int (m.interrupt_number + 1) }) byte in
    if m'.nbytes_in == 3
    then record m' {
      xpos = to_int (m'.xpos + extend_char (decode_dx m'.byte_in));
      ypos = to_int (m'.ypos + extend_char (decode_dy m'.byte_in));
      nbytes_in = 0;
    }
    else m'

-- An interrupt for each byte.
pub interrupts : Tracker → List ℕ → Tracker
interrupts m [] = m
interrupts m (byte ∷ rest) = interrupts (interrupt m byte) rest

-- The bytes of an `int`.
abbrev pub int_bytes : ℕ → Mem
int_bytes x i = x / 256 ^ i % 256

module _ (copy_to_user : CopyFn) where
  pub read : Tracker → Mem → (buf lbuf : ℕ) → Mem × Ret
  read m user buf lbuf =
      if ltb lbuf 8
      then (user, fail efault)
      else let (user', left) = copy_to_user user buf (int_bytes m.xpos) 0 4 in
        if not (left == 0)
        then (user', fail efault)
        else let (user'', left') = copy_to_user user' (buf + 4) (int_bytes m.ypos) 0 4 in
          (user'', if left' == 0 then ret 8 else fail efault)

-- The data are not looked at.
pub write : (lbuf : ℕ) → Ret
write lbuf = ret lbuf

-- `MY_IOC_Z`, `_IO('k', 1)`
abbrev pub my_ioc_z : ℕ
my_ioc_z = b'k' * 2 ^ 8 + 1

pub unlocked_ioctl : Tracker → (cmd : ℕ) → Tracker × Ret
unlocked_ioctl m cmd =
    if cmd == my_ioc_z then (record m { xpos = 0; ypos = 0 }, ret 0) else (m, fail einval)
