-- ===== src/Kernel/Slice.antt =====
-- The bytes of a range of memory, as a list, and copies that meet no fault.
use ldd_samples.Prelude.{
  ℕ, zero, suc, ◌+◌, ◌-◌, ◌<◌, ◌≡◌, refl, sym, ap, ◌∙◌, List, [], ◌∷◌, ◌++◌, arith,
}
use ldd_samples.Kernel.Memory.{Mem, CopyFn, IsCopy}

-- `n` bytes from `a` on
unfoldable pub slice : Mem → ℕ → ℕ → List ℕ
slice m a zero = []
slice m a (suc n) = m a ∷ slice m (a + 1) n

pub slice-append : (m : Mem) (a n k : ℕ) → slice m a (n + k) ≡ slice m a n ++ slice m (a + n) k
unfolding slice
slice-append m a zero k = rw (start, zero_add) refl
  where
    start : a + 0 ≡ a
    start = omega arith

    zero_add : 0 + k ≡ k
    zero_add = omega arith
slice-append m a (suc n) k = rw (more, step) (ap (λ l. m a ∷ l) (slice-append m (a + 1) n k))
  where
    more : suc n + k ≡ suc (n + k)
    more = omega arith

    step : a + suc n ≡ a + 1 + n
    step = omega arith

-- Two ranges with the same bytes.
pub slice-ext :
    (m m' : Mem) (a b n : ℕ)
    → ((i : ℕ) → i < n → m (a + i) ≡ m' (b + i))
    → slice m a n ≡ slice m' b n
unfolding slice
slice-ext m m' a b zero same = refl
slice-ext m m' a b (suc n) same =
    let head : m a ≡ m' b = ap m (sym (start a)) ∙ same 0 (omega arith) ∙ ap m' (start b) in
    let tail : slice m (a + 1) n ≡ slice m' (b + 1) n =
      slice-ext m m' (a + 1) (b + 1) n
        (λ i small. ap m (step a i) ∙ same (suc i) (omega arith) ∙ ap m' (sym (step b i))) in
    rw (head, tail) refl
  where
    start : (c : ℕ) → c + 0 ≡ c
    start c = omega arith

    step : (c i : ℕ) → c + 1 + i ≡ c + suc i
    step c i = omega arith

-- A copy that meets no fault.
pub record IsWhole (copy : CopyFn) : Type 0 where
  pub is_copy : IsCopy copy
  pub whole : (dst : Mem) (to : ℕ) (src : Mem) (from n : ℕ) → (copy dst to src from n).1 ≡ 0

pub copied-slice :
    (copy : CopyFn)
    → IsWhole copy
    → (user src : Mem) (buffer from n : ℕ)
    → slice (copy user buffer src from n).0 buffer n ≡ slice src from n
copied-slice copy is_whole user src buffer from n =
    slice-ext (copy user buffer src from n).0 src buffer from n (λ i small.
      is_whole.is_copy.copied user buffer src from n (buffer + i) (omega arith)
        (rw (is_whole.whole user buffer src from n) (omega arith))
      ∙ ap src (back i))
  where
    back : (i : ℕ) → from + (buffer + i - buffer) ≡ from + i
    back i = omega arith
