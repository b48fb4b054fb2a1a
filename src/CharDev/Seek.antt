-- ===== src/CharDev/Seek.antt =====
-- `chardrv_lseek` of char/lab6_char_fasync.c. A 64-bit pattern from 2 ^ 63 on is a negative offset.
use ldd_samples.Prelude.{ℕ, ◌+◌, ◌-◌, ◌^◌, ◌≤◌, ◌<◌, ◌≡◌, arith, min}
use ldd_samples.Kernel.{ret, fail, einval}
use ldd_samples.CharDev.{membuff_size, lseek}

-- Wherever the position was, and whatever offset and origin are given, a known origin leaves it
-- inside the device or at its end; that position is the result.
pub lseek-in_bounds :
    (f_pos offset orig : ℕ)
    → orig < 3
    → ((lseek f_pos offset orig).0 ≤ membuff_size)
      × ((lseek f_pos offset orig).1 ≡ ret (lseek f_pos offset orig).0)
unfolding lseek
lseek-in_bounds f_pos offset orig known = ground arith

-- An unknown origin is refused and leaves the position alone.
pub lseek-unknown :
    (f_pos offset orig : ℕ) → 3 ≤ orig → lseek f_pos offset orig ≡ (f_pos, fail einval)
unfolding lseek
lseek-unknown f_pos offset orig h = ground arith

-- Where the target is not negative, the call moves there, or to the end of the device.
pub lseek-cur :
    (f_pos offset : ℕ)
    → f_pos + offset < 2 ^ 63
    → (lseek f_pos offset 1).0 ≡ min (f_pos + offset) membuff_size
unfolding lseek
lseek-cur f_pos offset h = ground arith

-- A SEEK_SET or SEEK_CUR to a position at most 2 ^ 63 before the start of the device goes to its
-- end, not to its start: for SEEK_SET to minus `back`, for SEEK_CUR from a position below `back` by
-- minus `back`.
pub lseek-negative :
    (f_pos back : ℕ)
    → back ≤ 2 ^ 63
    → f_pos < back
    → ((lseek f_pos (2 ^ 64 - back) 0).0 ≡ membuff_size)
      × ((lseek f_pos (2 ^ 64 - back) 1).0 ≡ membuff_size)
unfolding lseek
lseek-negative f_pos back h k = ground arith
