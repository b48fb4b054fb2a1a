-- ===== src/Kernel/Memory.antt =====
-- Memory as bytes at addresses, relative to the start of a buffer: an access past the buffer's end
-- is an access to what lies behind it. `memcpy`, and the user copies as a parameter with the
-- documented behaviour as a law record.
use ldd_samples.Prelude.{ℕ, ◌+◌, ◌-◌, ◌≤◌, ◌<◌, ◌≡◌, ap, ◌⊎◌, ◌&&◌, arith, ltb, leb, if◌then◌else◌}

abbrev pub Mem : Type 0
Mem = ℕ → ℕ

-- `n` bytes of `src` from `from` on, written to `dst` from `to` on
unfoldable pub memcpy : Mem → ℕ → Mem → ℕ → ℕ → Mem
memcpy dst to src from n a = if leb to a && ltb a (to + n) then src (from + (a - to)) else dst a

unfoldable pub memset : Mem → ℕ → ℕ → ℕ → Mem
memset dst to v n a = if leb to a && ltb a (to + n) then v else dst a

-- `copy_to_user`, `copy_from_user`: destination, source and length, to the destination afterwards
-- and the number of bytes that could not be copied.
abbrev pub CopyFn : Type 0
CopyFn = Mem → ℕ → Mem → ℕ → ℕ → Mem × ℕ

-- What is documented of both: the bytes left over are the last ones, and nothing outside the
-- destination range is written. The bytes left over may hold anything (zeros, after
-- `copy_from_user`).
pub record IsCopy (copy : CopyFn) : Type 0 where
  pub left-le : (dst : Mem) (to : ℕ) (src : Mem) (from n : ℕ) → (copy dst to src from n).1 ≤ n
  pub copied :
      (dst : Mem) (to : ℕ) (src : Mem) (from n a : ℕ)
      → to ≤ a
      → a < to + (n - (copy dst to src from n).1)
      → (copy dst to src from n).0 a ≡ src (from + (a - to))
  pub frame :
      (dst : Mem) (to : ℕ) (src : Mem) (from n a : ℕ)
      → (a < to) ⊎ (to + n ≤ a)
      → (copy dst to src from n).0 a ≡ dst a

-- A copy that never faults.
unfoldable pub whole_copy : CopyFn
unfolding memcpy
whole_copy dst to src from n = (memcpy dst to src from n, 0)

pub whole_copy-IsCopy : IsCopy whole_copy
unfolding whole_copy
whole_copy-IsCopy = record {
  left-le = λ dst to src from n. omega arith;
  copied = λ dst to src from n a h k. ground arith;
  frame = λ dst to src from n a h. ground arith;
}

-- A copy that meets an unmapped page after `k` bytes.
unfoldable pub short_copy : ℕ → CopyFn
unfolding memcpy
short_copy k dst to src from n =
    if leb n k then (memcpy dst to src from n, 0) else (memcpy dst to src from k, n - k)

pub short_copy-IsCopy : (k : ℕ) → IsCopy (short_copy k)
unfolding short_copy
short_copy-IsCopy k = record {
  left-le = λ dst to src from n. ground arith;
  copied = λ dst to src from n a h l. ground arith;
  frame = λ dst to src from n a h. ground arith;
}

pub memcpy-start :
    (dst src : Mem) (from n i : ℕ)
    → memcpy dst 0 src from n i ≡ (if ltb i n then src (from + i) else dst i)
unfolding memcpy
memcpy-start dst src from n i = ground (arith, ap src (at i))
  where
    at : (i : ℕ) → from + (i - 0) ≡ from + i
    at i = omega arith
