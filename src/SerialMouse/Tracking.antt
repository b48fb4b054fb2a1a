-- ===== src/SerialMouse/Tracking.antt =====
-- How the positions of hardware/lab4_serial.c follow the mouse, and how its handler agrees with that of
-- hardware/lab4_full_mouse_driver.c.
use ldd_samples.Prelude.{
  ℕ, ◌+◌, ◌*◌, ◌/◌, ◌%◌, ◌^◌, ◌<◌, ◌≡◌, refl, ◌∙◌, ap, sym, subst, Bool, true, List, [], ◌∷◌, ◌++◌,
  arith, ◌==◌, if◌then◌else◌,
}
use ldd_samples.Kernel.Memory.{Mem}
use ldd_samples.Kernel.Word.{to_int}
use ldd_samples.Mouse.{has_magic, decode_dx, decode_dy}
use ldd_samples.Mouse.Packets.{NoMagic, encode, decode-encode}
use ldd_samples.SerialMouse.{Tracker, extend_char, interrupt, interrupts}

-- Stray bytes and, behind them, a movement with the state of the buttons.
pub record Move : Type 0 where
  pub junk : List ℕ
  pub dx : ℕ
  pub dy : ℕ
  pub left : Bool
  pub right : Bool

pub record IsMove (v : Move) : Type 0 where
  pub stray : NoMagic v.junk
  pub small : (v.dx < 256) × (v.dy < 256)

abbrev pub AreMoves : List Move → Type 0
AreMoves [] = Unit
AreMoves (v ∷ vs) = IsMove v × AreMoves vs

-- What comes over the line.
abbrev pub packet : Move → Mem
packet v = encode v.dx v.dy v.left v.right

abbrev pub line : List Move → List ℕ
line [] = []
line (v ∷ vs) = v.junk ++ (packet v 0 ∷ packet v 1 ∷ packet v 2 ∷ line vs)

-- The sums of the movements, in 32 bits.
abbrev pub total_x : List Move → ℕ
total_x [] = 0
total_x (v ∷ vs) = (extend_char v.dx + total_x vs) % 2 ^ 32

abbrev pub total_y : List Move → ℕ
total_y [] = 0
total_y (v ∷ vs) = (extend_char v.dy + total_y vs) % 2 ^ 32

-- Between packets, with positions that are `int`s.
pub record IsBetween (m : Tracker) : Type 0 where
  pub start : m.nbytes_in ≡ 0
  pub ints : (m.xpos < 2 ^ 32) × (m.ypos < 2 ^ 32)

-- The tracker is at these positions.
pub record IsAt (m : Tracker) (x y : ℕ) : Type 0 where
  pub between : m.nbytes_in ≡ 0
  pub at_x : m.xpos ≡ x
  pub at_y : m.ypos ≡ y

interrupts-append :
    (xs ys : List ℕ) (m : Tracker) → interrupts m (xs ++ ys) ≡ interrupts (interrupts m xs) ys
unfolding interrupts
interrupts-append [] ys m = refl
interrupts-append (byte ∷ rest) ys m = interrupts-append rest ys (interrupt m byte)

interrupts-junk :
    (junk : List ℕ) (m : Tracker)
    → NoMagic junk
    → m.nbytes_in ≡ 0
    → IsAt (interrupts m junk) m.xpos m.ypos
unfolding interrupts interrupt
interrupts-junk [] m stray start = record { between = start; at_x = refl; at_y = refl }
interrupts-junk (byte ∷ rest) m (plain, plains) start =
    let x : (interrupt m byte).xpos ≡ m.xpos = ground arith in
    let y : (interrupt m byte).ypos ≡ m.ypos = ground arith in
    let h = interrupts-junk rest (interrupt m byte) plains (ground arith) in
    record { between = h.between; at_x = h.at_x ∙ x; at_y = h.at_y ∙ y }

-- The tracker within a packet.
abbrev first_in : Tracker → (b0 : ℕ) → Tracker
first_in m b0 = record m {
  interrupt_number = to_int (m.interrupt_number + 1);
  byte_in = (λ i. if i == 0 then b0 else m.byte_in i);
  nbytes_in = 1;
}

abbrev second_in : Tracker → (b1 : ℕ) → Tracker
second_in m b1 = record m {
  interrupt_number = to_int (m.interrupt_number + 1);
  byte_in = (λ i. if i == 1 then b1 else m.byte_in i);
  nbytes_in = 2;
}

first-in :
    (m : Tracker) (b0 : ℕ) → m.nbytes_in ≡ 0 → has_magic b0 ≡ true → interrupt m b0 ≡ first_in m b0
unfolding interrupt
first-in m b0 start magic = ground arith

second-in : (m : Tracker) (b1 : ℕ) → m.nbytes_in ≡ 1 → interrupt m b1 ≡ second_in m b1
unfolding interrupt
second-in m b1 start = ground arith

interrupts-three :
    (m : Tracker) (b0 b1 b2 : ℕ)
    → m.nbytes_in ≡ 0
    → has_magic b0 ≡ true
    → IsAt
        (interrupts m (b0 ∷ b1 ∷ b2 ∷ []))
        (to_int (m.xpos + extend_char (b0 % 4 * 64 + b1 % 64)))
        (to_int (m.ypos + extend_char (b0 / 4 % 4 * 64 + b2 % 64)))
unfolding interrupts interrupt decode_dx decode_dy
interrupts-three m b0 b1 b2 start magic =
    let two : interrupt (interrupt m b0) b1 ≡ second_in (first_in m b0) b1 =
      ap (λ t. interrupt t b1) (first-in m b0 start magic) ∙ second-in (first_in m b0) b1 refl in
    subst
      (λ t.
        IsAt (interrupt t b2) (to_int (m.xpos + extend_char (b0 % 4 * 64 + b1 % 64)))
          (to_int (m.ypos + extend_char (b0 / 4 % 4 * 64 + b2 % 64))))
      (sym two) (third m b0 b1 b2)
  where
    third :
        (m : Tracker) (b0 b1 b2 : ℕ)
        → IsAt
            (interrupt (second_in (first_in m b0) b1) b2)
            (to_int (m.xpos + extend_char (b0 % 4 * 64 + b1 % 64)))
            (to_int (m.ypos + extend_char (b0 / 4 % 4 * 64 + b2 % 64)))
    third m b0 b1 b2 = record { between = refl; at_x = refl; at_y = refl }

interrupts-packet :
    (m : Tracker) (v : Move)
    → m.nbytes_in ≡ 0
    → IsMove v
    → IsAt
        (interrupts m (packet v 0 ∷ packet v 1 ∷ packet v 2 ∷ []))
        (to_int (m.xpos + extend_char v.dx))
        (to_int (m.ypos + extend_char v.dy))
unfolding decode_dx decode_dy
interrupts-packet m v start h =
    let (in_x, in_y) = h.small in
    let (x, y, l, r, magic, n1, n2) = decode-encode v.dx v.dy v.left v.right in_x in_y in
    let got = interrupts-three m (packet v 0) (packet v 1) (packet v 2) start magic in
    record {
      between = got.between;
      at_x = got.at_x ∙ ap (λ d. to_int (m.xpos + extend_char d)) x;
      at_y = got.at_y ∙ ap (λ d. to_int (m.ypos + extend_char d)) y;
    }

interrupts-line :
    (vs : List Move) (m : Tracker)
    → IsBetween m
    → AreMoves vs
    → IsAt (interrupts m (line vs)) (to_int (m.xpos + total_x vs)) (to_int (m.ypos + total_y vs))
unfolding interrupts
interrupts-line [] m h all =
    let (x, y) = h.ints in
    record { between = h.start; at_x = omega (arith, x); at_y = omega (arith, y) }
interrupts-line (v ∷ vs) m h (move, moves) =
    let m1 : Tracker = interrupts m v.junk in
    let stray = interrupts-junk v.junk m move.stray h.start in
    let m2 : Tracker = interrupts m1 (packet v 0 ∷ packet v 1 ∷ packet v 2 ∷ []) in
    let moved = interrupts-packet m1 v stray.between move in
    let whole : interrupts m (line (v ∷ vs)) ≡ interrupts m2 (line vs) =
      interrupts-append v.junk (packet v 0 ∷ packet v 1 ∷ packet v 2 ∷ line vs) m in
    let between : IsBetween m2 = record {
      start = moved.between;
      ints = (ground (arith, moved.at_x), ground (arith, moved.at_y));
    } in
    let rest = interrupts-line vs m2 between moves in
    record {
      between = ap (λ t. t.nbytes_in) whole ∙ rest.between;
      at_x = ap (λ t. t.xpos) whole ∙ rest.at_x ∙ omega (arith, moved.at_x, stray.at_x);
      at_y = ap (λ t. t.ypos) whole ∙ rest.at_y ∙ omega (arith, moved.at_y, stray.at_y);
    }

-- Through any line of packets with any number of stray bytes before each, the
-- handler ends between packets with its positions moved by the sums of the movements, in 32 bits.
pub interrupts-moves :
    (vs : List Move) (m : Tracker)
    → IsBetween m
    → AreMoves vs
    → (interrupts m (line vs)).nbytes_in ≡ 0
      × (interrupts m (line vs)).xpos ≡ (m.xpos + total_x vs) % 2 ^ 32
      × (interrupts m (line vs)).ypos ≡ (m.ypos + total_y vs) % 2 ^ 32
interrupts-moves vs m h all = let at = interrupts-line vs m h all in (at.between, at.at_x, at.at_y)
