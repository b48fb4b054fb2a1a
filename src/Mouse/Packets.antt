-- ===== src/Mouse/Packets.antt =====
-- The interrupt handler of hardware/lab4_full_mouse_driver.c: framing, resynchronisation, decoding.
use ldd_samples.Prelude.{
  ℕ, ◌+◌, ◌*◌, ◌/◌, ◌%◌, ◌≤◌, ◌<◌, ◌≡◌, refl, ◌∙◌, ap, Bool, true, false, List, [], ◌∷◌, ◌++◌,
  arith, ◌==◌, if◌then◌else◌,
}
use ldd_samples.Kernel.Memory.{Mem}
use ldd_samples.Mouse.{
  Mouse, has_magic, take_byte, interrupt, decode_dx, decode_dy, decode_left, decode_right,
}

-- The handler is in the middle of a packet, or before one.
abbrev pub IsFramed : Mouse → Type 0
IsFramed m = m.num_byte_in < 3

take_byte-IsFramed :
    (m : Mouse) (byte i : ℕ)
    → IsFramed m
    → 3 ≤ i
    → IsFramed (take_byte m byte).0 × ((take_byte m byte).0.bytes i ≡ m.bytes i)
unfolding take_byte
take_byte-IsFramed m byte i framed behind = ground arith

-- From a state that is before or inside a packet, whatever comes in, the handler writes inside the
-- first three bytes of its buffer of five: the index stays below 3, and the bytes behind are never
-- changed.
pub interrupt-IsFramed :
    (input : List ℕ) (m : Mouse) (i : ℕ)
    → IsFramed m
    → 3 ≤ i
    → IsFramed (interrupt m input).0 × ((interrupt m input).0.bytes i ≡ m.bytes i)
unfolding interrupt
interrupt-IsFramed [] m i framed behind = (framed, refl)
interrupt-IsFramed (byte ∷ rest) m i framed behind =
    let (f, same) = take_byte-IsFramed m byte i framed behind in
    let (f', same') = interrupt-IsFramed rest (take_byte m byte).0 i f behind in (f', same' ∙ same)

-- Bytes none of which can begin a packet.
abbrev pub NoMagic : List ℕ → Type 0
NoMagic [] = Unit
NoMagic (byte ∷ rest) = (has_magic byte ≡ false) × NoMagic rest

-- Input comes in pieces: the handler may run once for all of it or once for each piece.
pub interrupt-append :
    (xs ys : List ℕ) (m : Mouse) → (interrupt m (xs ++ ys)).0 ≡ (interrupt (interrupt m xs).0 ys).0
unfolding interrupt
interrupt-append [] ys m = refl
interrupt-append (byte ∷ rest) ys m = interrupt-append rest ys (take_byte m byte).0

skip-junk :
    (junk : List ℕ) (m : Mouse) → m.num_byte_in ≡ 0 → NoMagic junk → (interrupt m junk).0 ≡ m
unfolding interrupt take_byte
skip-junk [] m start no_magic = refl
skip-junk (byte ∷ rest) m start (plain, plains) =
    let step : (take_byte m byte).0 ≡ m = ground arith in
    ap (λ k. (interrupt k rest).0) step ∙ skip-junk rest m start plains

-- The state with a packet.
abbrev pub with_packet : Mouse → (b0 b1 b2 : ℕ) → Mouse
with_packet m b0 b1 b2 = record m {
  bytes = (λ i. if i == 2 then b2 else if i == 1 then b1 else if i == 0 then b0 else m.bytes i);
  ready = true;
  num_byte_in = 0;
}

take-packet :
    (m : Mouse) (b0 b1 b2 : ℕ)
    → m.num_byte_in ≡ 0
    → has_magic b0 ≡ true
    → (interrupt m (b0 ∷ b1 ∷ b2 ∷ [])).0 ≡ with_packet m b0 b1 b2
unfolding interrupt take_byte
take-packet m b0 b1 b2 start magic = ground arith

-- Between packets the handler finds its step again: it drops bytes without the magic bit, however
-- many, and makes the next three that begin with the bit into a packet, whatever the other two are.
pub interrupt-resync :
    (junk : List ℕ) (m : Mouse) (b0 b1 b2 : ℕ)
    → m.num_byte_in ≡ 0
    → NoMagic junk
    → has_magic b0 ≡ true
    → (interrupt m (junk ++ (b0 ∷ b1 ∷ b2 ∷ []))).0 ≡ with_packet m b0 b1 b2
interrupt-resync junk m b0 b1 b2 start no_magic magic =
    interrupt-append junk (b0 ∷ b1 ∷ b2 ∷ []) m
    ∙ ap (λ k. (interrupt k (b0 ∷ b1 ∷ b2 ∷ [])).0) (skip-junk junk m start no_magic)
    ∙ take-packet m b0 b1 b2 start magic

-- The three bytes that the protocol has for a movement, as patterns of 8 bits, and two buttons.
abbrev pub encode : (dx dy : ℕ) (left right : Bool) → Mem
encode dx dy left right i =
    if i == 0
    then 64 + (if left then 32 else 0) + (if right then 16 else 0) + dy / 64 * 4 + dx / 64
    else if i == 1
    then dx % 64
    else dy % 64

-- Decoding gives back every movement of 8 bits a direction and every state of the buttons that a
-- packet encodes; the packet's first byte has the magic bit and the other two do not.
pub decode-encode :
    (dx dy : ℕ) (left right : Bool)
    → dx < 256
    → dy < 256
    → (decode_dx (encode dx dy left right) ≡ dx)
      × (decode_dy (encode dx dy left right) ≡ dy)
      × (decode_left (encode dx dy left right) ≡ left)
      × (decode_right (encode dx dy left right) ≡ right)
      × (has_magic (encode dx dy left right 0) ≡ true)
      × (has_magic (encode dx dy left right 1) ≡ false)
      × (has_magic (encode dx dy left right 2) ≡ false)
unfolding decode_dx decode_dy decode_left decode_right
decode-encode dx dy left right hx hy = ground arith
