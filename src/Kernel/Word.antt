-- ===== src/Kernel/Word.antt =====
-- Machine words of a 64-bit kernel as their bit patterns: `size_t`, `loff_t` and `unsigned long`
-- have 64 bits, `int` has 32, and a signed pattern is negative from the half on.
use ldd_samples.Prelude.{
  ℕ, ◌+◌, ◌-◌, ◌*◌, ◌/◌, ◌%◌, ◌^◌, ◌<◌, ◌≡◌, Bool, not, arith, ltb, leb, if◌then◌else◌,
}

abbrev pub u64 : ℕ → ℕ
u64 x = x % 2 ^ 64

-- 64-bit addition, of signed and of unsigned patterns alike.
abbrev pub add64 : ℕ → ℕ → ℕ
add64 a b = (a + b) % 2 ^ 64

abbrev pub mul64 : ℕ → ℕ → ℕ
mul64 a b = (a * b) % 2 ^ 64

-- a - b in 64 bits
abbrev pub sub64 : ℕ → ℕ → ℕ
sub64 a b = (a + 2 ^ 64 - b) % 2 ^ 64

-- the sign of a `loff_t` or a `long`
abbrev pub is_negative64 : ℕ → Bool
is_negative64 a = leb (2 ^ 63) a

-- the conversion to `int`
abbrev pub to_int : ℕ → ℕ
to_int x = x % 2 ^ 32

-- the conversion of an `int` to 64 bits, with its sign
abbrev pub extend_int : ℕ → ℕ
extend_int x = if ltb x (2 ^ 31) then x else x + 2 ^ 64 - 2 ^ 32

-- A small count survives the way through an `int` and back.
pub extend_int-to_int : (x : ℕ) → x < 2 ^ 31 → extend_int (to_int x) ≡ x
extend_int-to_int x h = ground arith

-- The VFS cuts every read and write to this many bytes (MAX_RW_COUNT, with pages of 4096 bytes).
abbrev pub max_rw_count : ℕ
max_rw_count = 0x7fff_f000

-- Signed division of 64-bit patterns, towards zero, as C divides; the divisor is not zero.
abbrev pub magnitude : ℕ → ℕ
magnitude x = if is_negative64 x then 2 ^ 64 - x else x

unfoldable pub div64 : ℕ → ℕ → ℕ
div64 a b =
    let m = magnitude a / magnitude b in
    let opposite = if is_negative64 a then not (is_negative64 b) else is_negative64 b in
    if opposite then (2 ^ 64 - m) % 2 ^ 64 else m

unfoldable pub rem64 : ℕ → ℕ → ℕ
rem64 a b =
    let m = magnitude a % magnitude b in if is_negative64 a then (2 ^ 64 - m) % 2 ^ 64 else m

pub div64-rem64 : (a b : ℕ) → a < 2 ^ 63 → b < 2 ^ 63 → (div64 a b ≡ a / b) × (rem64 a b ≡ a % b)
unfolding div64 rem64
div64-rem64 a b ha hb = ground arith
