-- ===== src/Mouse.antt =====
-- The serial mouse driver of hardware/lab4_full_mouse_driver.c: the interrupt handler that puts
-- packets of three bytes together, and the file operations that hand them out.
pub mod Packets
pub mod Reading
pub mod Lifecycle
mod Tests
use ldd_samples.Prelude.{
  ℕ, zero, suc, ◌+◌, ◌-◌, ◌*◌, ◌/◌, ◌%◌, Bool, true, false, List, [], ◌∷◌, ◌++◌, ltb, ◌==◌, ◌||◌,
  ◌&&◌, not, if◌then◌else◌,
}
use ldd_samples.Kernel.{Ret, ret, fail, einval, eagain, efault, restartsys}
use ldd_samples.Kernel.Memory.{Mem, CopyFn}

-- `my_state`, `numByteIn` of the handler and `user_pid`. `disabled` counts the calls of
-- `disable_irq` that no `enable_irq` has undone.
pub record Mouse : Type 0 where
  pub bytes : Mem
  pub ready : Bool
  pub num_byte_in : ℕ
  pub user_pid : ℕ
  pub disabled : ℕ

-- What the handler does to others.
pub data Event : Type 0 where
  wake_up tasklet_schedule : Event

-- `byte & FIRST_BYTE_MAGIC`, where the magic is 0x40
abbrev pub has_magic : ℕ → Bool
has_magic byte = byte / 64 % 2 == 1

-- The byte put into the packet, unless it should be the first and is not one.
unfoldable pub accept : Mouse → ℕ → Mouse
accept m byte =
    if ltb 0 m.num_byte_in || has_magic byte
    then record m {
      bytes = (λ i. if i == m.num_byte_in then byte else m.bytes i);
      num_byte_in = m.num_byte_in + 1;
    }
    else m

-- One round of the loop in `my_interrupt`.
unfoldable pub take_byte : Mouse → ℕ → Mouse × List Event
unfolding accept
take_byte m byte =
    let m' = accept m byte in
    if m'.num_byte_in == 3
    then (
      record m' { ready = true; num_byte_in = 0 },
      wake_up ∷ (if m'.user_pid == 0 then [] else tasklet_schedule ∷ []),
    )
    else (m', [])

-- `my_interrupt`: the list holds what the UART gives, byte by byte, until it has no data ready.
unfoldable pub interrupt : Mouse → List ℕ → Mouse × List Event
interrupt m [] = (m, [])
interrupt m (byte ∷ rest) =
    let (m', events) = take_byte m byte in
    let (m'', more) = interrupt m' rest in (m'', events ++ more)

pub open_dev : Mouse → (tgid : ℕ) → Mouse × Ret
open_dev m tgid = (record m { ready = false; user_pid = tgid }, ret 0)

-- `tasklet_kill` waits for the tasklet and changes nothing here.
pub release : Mouse → Mouse × Ret
release m = (record m { ready = false; user_pid = 0 }, ret 0)

-- `POLLIN | POLLRDNORM`
pub poll : Mouse → ℕ
poll m = if m.ready then 0x41 else 0

-- A read sleeps on, or returns.
pub data Outcome : Type 0 where
  asleep : Outcome
  returned : Mouse → Mem → Ret → Outcome

-- `put_user (0x00, buf + r)` for `n` values of `r`; a fault goes unnoticed.
pub pad : (put_zero : Mem → ℕ → Mem) → Mem → (a n : ℕ) → Mem
pad put_zero user a zero = user
pad put_zero user a (suc n) = pad put_zero (put_zero user a) (a + 1) n

module _ (copy_to_user : CopyFn) (put_zero : Mem → ℕ → Mem) where
  -- The part of `mymouse_read` behind the wait.
  pub read_packet : Mouse → Mem → (buf lbuf : ℕ) → Outcome
  unfolding pad
  read_packet m user buf lbuf =
      let (user', left) = copy_to_user user buf m.bytes 0 3 in
      if not (left == 0)
      then returned (record m { disabled = m.disabled + 1 }) user' (fail efault)
      else returned (record m { ready = false }) (pad put_zero user' (buf + 3) (lbuf - 3))
          (ret lbuf)

  -- `slept` says that the call comes out of its wait, where it looks for a signal first.
  pub read : (o_ndelay slept signal_pending : Bool) → Mouse → Mem → (buf lbuf : ℕ) → Outcome
  unfolding read_packet
  read o_ndelay slept signal_pending m user buf lbuf =
      if ltb lbuf 3
      then returned m user (fail einval)
      else if slept && signal_pending
      then returned m user (fail restartsys)
      else if m.ready
      then read_packet m user buf lbuf
      else if o_ndelay
      then returned m user (fail eagain)
      else if signal_pending
      then returned m user (fail restartsys)
      else asleep

-- hardware/HINT_decode_bytes.c: the movements as bit patterns of a `signed char`, and the buttons.
unfoldable pub decode_dx : Mem → ℕ
decode_dx byte_in = byte_in 0 % 4 * 64 + byte_in 1 % 64

unfoldable pub decode_dy : Mem → ℕ
decode_dy byte_in = byte_in 0 / 4 % 4 * 64 + byte_in 2 % 64

pub decode_left : Mem → Bool
decode_left byte_in = byte_in 0 / 32 % 2 == 1

pub decode_right : Mem → Bool
decode_right byte_in = byte_in 0 / 16 % 2 == 1
