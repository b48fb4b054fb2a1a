-- ===== src/SerialMouse/Agreement.antt =====
-- What a reader of hardware/lab4_serial.c is told, and how the driver agrees with
-- hardware/lab4_full_mouse_driver.c on the packets.
use ldd_samples.Prelude.{
  ℕ, ◌+◌, ◌*◌, ◌/◌, ◌%◌, ◌^◌, ◌≤◌, ◌<◌, ◌≡◌, ◌∙◌, ap, List, [], ◌∷◌, arith, inl,
}
use ldd_samples.Kernel.{ret}
use ldd_samples.Kernel.Memory.{Mem, CopyFn, IsCopy}
use ldd_samples.Mouse.{Mouse, accept, take_byte}
use ldd_samples.Mouse as Full
use ldd_samples.SerialMouse.{
  Tracker, interrupt, interrupts, int_bytes, read, my_ioc_z, unlocked_ioctl,
}
use ldd_samples.SerialMouse.Tracking.{
  Move, IsBetween, AreMoves, line, total_x, total_y, interrupts-moves,
}

-- The value of four bytes, the least first.
abbrev pub int_at : Mem → ℕ → ℕ
int_at m a = m a + 256 * m (a + 1) + 256 ^ 2 * m (a + 2) + 256 ^ 3 * m (a + 3)

int_at-int_bytes :
    (m : Mem) (a x : ℕ)
    → x < 2 ^ 32
    → ((i : ℕ) → i < 4 → m (a + i) ≡ int_bytes x i)
    → int_at m a ≡ x
int_at-int_bytes m a x small bytes =
    let e0 : m a ≡ x % 256 = ap m (omega arith) ∙ bytes 0 (omega arith) ∙ omega arith in
    let e1 : m (a + 1) ≡ x / 256 % 256 = bytes 1 (omega arith) ∙ omega arith in
    let e2 : m (a + 2) ≡ x / 65536 % 256 = bytes 2 (omega arith) ∙ omega arith in
    let e3 : m (a + 3) ≡ x / 16777216 % 256 = bytes 3 (omega arith) ∙ omega arith in
    omega (arith, small, e0, e1, e2, e3)

module _ {copy : CopyFn} (is_copy : IsCopy copy) (m : Tracker) (user : Mem) (buf lbuf : ℕ) where
  -- The caller's memory behind the two copies of a read.
  abbrev first_copied : Mem × ℕ
  first_copied = copy user buf (int_bytes m.xpos) 0 4

  abbrev both_copied : Mem × ℕ
  both_copied = copy first_copied.0 (buf + 4) (int_bytes m.ypos) 0 4

  x_byte : (i : ℕ) → i < 4 → first_copied.1 ≡ 0 → both_copied.0 (buf + i) ≡ int_bytes m.xpos i
  x_byte i inside whole =
      is_copy.frame first_copied.0 (buf + 4) (int_bytes m.ypos) 0 4 (buf + i)
        (inl (omega (arith, inside)))
      ∙ is_copy.copied user buf (int_bytes m.xpos) 0 4 (buf + i) (omega arith)
          (omega (arith, inside, whole))
      ∙ ap (int_bytes m.xpos) (omega arith)

  y_byte : (i : ℕ) → i < 4 → both_copied.1 ≡ 0 → both_copied.0 (buf + 4 + i) ≡ int_bytes m.ypos i
  y_byte i inside whole =
      is_copy.copied first_copied.0 (buf + 4) (int_bytes m.ypos) 0 4 (buf + 4 + i) (omega arith)
        (omega (arith, inside, whole))
      ∙ ap (int_bytes m.ypos) (omega arith)

  read-ints :
      m.xpos < 2 ^ 32
      → m.ypos < 2 ^ 32
      → first_copied.1 ≡ 0
      → both_copied.1 ≡ 0
      → (int_at both_copied.0 buf ≡ m.xpos) × (int_at both_copied.0 (buf + 4) ≡ m.ypos)
  read-ints in_x in_y whole whole' = (
    int_at-int_bytes both_copied.0 buf m.xpos in_x (λ i inside. x_byte i inside whole),
    int_at-int_bytes both_copied.0 (buf + 4) m.ypos in_y (λ i inside. y_byte i inside whole'),
  )

-- The tracker after a reset and a line of packets.
abbrev pub followed : Tracker → List Move → Tracker
followed m vs = interrupts (unlocked_ioctl m my_ioc_z).0 (line vs)

total_x-lt : (vs : List Move) → total_x vs < 2 ^ 32
total_x-lt [] = omega arith
total_x-lt (v ∷ vs) = omega arith

total_y-lt : (vs : List Move) → total_y vs < 2 ^ 32
total_y-lt [] = omega arith
total_y-lt (v ∷ vs) = omega arith

followed-totals :
    (m : Tracker) (vs : List Move)
    → m.nbytes_in ≡ 0
    → AreMoves vs
    → ((followed m vs).xpos ≡ total_x vs) × ((followed m vs).ypos ≡ total_y vs)
unfolding unlocked_ioctl
followed-totals m vs start all =
    let zeroed : IsBetween (unlocked_ioctl m my_ioc_z).0 = ground (arith, start) in
    let (between, x, y) = interrupts-moves vs (unlocked_ioctl m my_ioc_z).0 zeroed all in
    (omega (arith, x, total_x-lt vs), omega (arith, y, total_y-lt vs))

module _ {copy : CopyFn} (is_copy : IsCopy copy) (m : Tracker) (vs : List Move) (user : Mem)
    (buf lbuf : ℕ) where
  -- After a reset between packets and any line of packets with stray bytes before each, a read of eight bytes or
  -- more whose two copies meet no fault returns 8 and leaves the sums of the movements, as `int`s of four
  -- bytes each, in the caller's memory.
  pub reset-moves-read :
      m.nbytes_in ≡ 0
      → AreMoves vs
      → 8 ≤ lbuf
      → (first_copied is_copy (followed m vs) user buf lbuf).1 ≡ 0
      → (both_copied is_copy (followed m vs) user buf lbuf).1 ≡ 0
      → (user' : Mem) × (read copy (followed m vs) user buf lbuf ≡ (user', ret 8))
        × (int_at user' buf ≡ total_x vs)
        × (int_at user' (buf + 4) ≡ total_y vs)
  unfolding read
  reset-moves-read start all room whole whole' =
      let (x, y) = followed-totals m vs start all in
      let (at_x, at_y) =
        read-ints is_copy (followed m vs) user buf lbuf (omega (arith, x, total_x-lt vs))
          (omega (arith, y, total_y-lt vs)) whole whole' in
      (
        (both_copied is_copy (followed m vs) user buf lbuf).0,
        ground (arith, room, whole, whole'),
        at_x ∙ x,
        at_y ∙ y,
      )

-- The two handlers are at the same place of a packet, with the same bytes.
pub record Agree (m : Tracker) (f : Mouse) : Type 0 where
  pub places : m.nbytes_in ≡ f.num_byte_in
  pub packets : (i : ℕ) → m.byte_in i ≡ f.bytes i

interrupt-Agree :
    (m : Tracker) (f : Mouse) (byte : ℕ) → Agree m f → Agree (interrupt m byte) (take_byte f byte).0
unfolding interrupt accept take_byte
interrupt-Agree m f byte h = record {
  places = ground (arith, h.places);
  packets = λ i. ground (arith, h.places, h.packets i);
}

-- Whatever comes in, one interrupt for a byte here and a handler for all of them there, the two handlers stay
-- at the same place of a packet with the same bytes.
pub interrupts-Agree :
    (input : List ℕ) (m : Tracker) (f : Mouse)
    → Agree m f
    → Agree (interrupts m input) (Full.interrupt f input).0
unfolding interrupts Full.interrupt
interrupts-Agree [] m f h = h
interrupts-Agree (byte ∷ rest) m f h =
    interrupts-Agree rest (interrupt m byte) (take_byte f byte).0 (interrupt-Agree m f byte h)
