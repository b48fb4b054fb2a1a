-- ===== src/Isa/Moves.antt =====
-- What the loops of hardware/lab5_silly.c move.
use ldd_samples.Prelude.{
  ℕ, zero, suc, ◌+◌, ◌-◌, ◌*◌, ◌/◌, ◌%◌, ◌≤◌, ◌<◌, ◌≡◌, ◌≢◌, refl, sym, ap, ◌∙◌, false, ◌&&◌, arith,
  ltb, leb, ◌==◌, if◌then◌else◌, if-holds,
}
use native.Mathlib.Nat.{mod-eq_of_lt, mod-add-mod, mod_self}
use ldd_samples.Kernel.Memory.{Mem, memcpy}
use ldd_samples.Isa.Access.{IoOps, load, store, downgrade, read_loop, write_loop}

-- What the kernel documents of the accesses to the device, on a little-endian machine.
pub record IsIo (io_ops : IoOps) : Type 0 where
  pub read : (w : ℕ) (io : Mem) (a : ℕ) → io_ops.ioread w io a ≡ load w io a
  pub write : (v : ℕ) (io : Mem) (a i : ℕ) → io_ops.iowrite8 v io a i ≡ (if i == a then v else io i)
  pub from_io :
      (dst io : Mem) (from n i : ℕ)
      → io_ops.memcpy_fromio dst io from n i ≡ memcpy dst 0 io from n i
  pub to_io :
      (io : Mem) (to : ℕ) (src : Mem) (n i : ℕ)
      → io_ops.memcpy_toio io to src n i ≡ memcpy io to src 0 n i

abbrev pub IsBytes : Mem → Type 0
IsBytes m = (a : ℕ) → m a < 256

-- A value that is loaded and stored is a copy of its bytes.
store-load :
    (n : ℕ) (io m : Mem) (a p i : ℕ)
    → IsBytes io
    → store n m p (load n io a) i ≡ memcpy m p io a n i
unfolding store load memcpy
store-load zero io m a p i bytes = ground arith
store-load (suc n) io m a p i bytes =
    rw (low, high)
      (store-load n io (λ b. if b == p then io a else m b) (a + 1) (p + 1) i bytes
        ∙ ground (arith, ap io first, ap io next))
  where
    low : (io a + 256 * load n io (a + 1)) % 256 ≡ io a
    low = let small = bytes a in omega arith

    high : (io a + 256 * load n io (a + 1)) / 256 ≡ load n io (a + 1)
    high = let small = bytes a in omega arith

    first : a + (p - p) ≡ a
    first = omega arith

    next : a + 1 + (i - (p + 1)) ≡ a + 1 + (i - p - 1)
    next = omega arith

load-low : (n : ℕ) (m : Mem) (p : ℕ) → IsBytes m → load (suc n) m p % 256 ≡ m p
unfolding load
load-low n m p bytes = ground (arith, bytes p)

-- A copy in two parts.
memcpy-join :
    (m moved io : Mem) (p a w n i : ℕ)
    → w ≤ n
    → moved i ≡ memcpy m p io a w i
    → memcpy moved (p + w) io (a + w) (n - w) i ≡ memcpy m p io a n i
unfolding memcpy
memcpy-join m moved io p a w n i fits one =
    let there : p + w ≤ i → io (a + w + (i - (p + w))) ≡ io (a + (i - p)) =
      λ later. ap io (omega arith) in
    ground (arith, one, there)

-- The bytes at every `w`th address of a range, from another memory.
unfoldable pub strided : (w : ℕ) → Mem → (add : ℕ) → Mem → (ptr n : ℕ) → Mem
strided w io add kbuf ptr n i =
    if leb add i && (ltb i (add + n) && ((i - add) % w == 0)) then kbuf (ptr + (i - add)) else io i

sub_mod : (x w : ℕ) → w ≤ x → (x - w) % w ≡ x % w
sub_mod x w fits = sym (
    ap (λ n. n % w) (omega arith)
    ∙ sym (mod-add-mod w w (x - w))
    ∙ ap (λ r. (r + (x - w)) % w) (mod_self w)
    ∙ ap (λ n. n % w) (omega arith))

strided-join :
    (io moved kbuf : Mem) (a p w n i : ℕ)
    → w ≢ 0
    → w ≤ n
    → moved i ≡ (if i == a then kbuf p else io i)
    → strided w moved (a + w) kbuf (p + w) (n - w) i ≡ strided w io a kbuf p n i
unfolding strided
strided-join io moved kbuf a p w n i wide fits one =
    let there : a + w ≤ i → kbuf (p + w + (i - (a + w))) ≡ kbuf (p + (i - a)) =
      λ later. ap kbuf (omega arith) in
    let same : a + w ≤ i → (i - (a + w)) % w ≡ (i - a) % w =
      λ later. ap (λ x. x % w) (omega arith) ∙ sub_mod (i - a) w (omega arith) in
    let first : i ≡ a → kbuf (p + (i - a)) ≡ kbuf p = λ e. ap kbuf (omega arith) in
    let start : i ≡ a → (i - a) % w ≡ 0 =
      λ e. ap (λ x. x % w) (omega arith) ∙ mod-eq_of_lt {n = 0} {m = w} (omega arith) in
    let between : i - a < w → (i - a) % w ≡ i - a =
      λ small. mod-eq_of_lt {n = i - a} {m = w} small in
    ground (arith, one, there, same, first, start, between)

load-first : (w : ℕ) (m : Mem) (p : ℕ) → IsBytes m → w ≢ 0 → load w m p % 256 ≡ m p
load-first zero m p bytes wide = absurd (wide refl)
load-first (suc n) m p bytes wide = load-low n m p bytes

not_short : (w n rest : ℕ) → n ≡ w + rest → leb w n ≡ false → ⊥
not_short w n rest more short = ground arith

zero_mul : (w : ℕ) → 0 * w ≡ 0
zero_mul w = omega arith

suc_mul : (k w : ℕ) → suc k * w ≡ w + k * w
suc_mul k w = omega arith

not_enough : (k : ℕ) → suc k ≤ 0 → ⊥
not_enough k h = omega arith

module _ (io_ops : IoOps) (is_io : IsIo io_ops) where
  -- `k` passes of a reading loop copy `k` widths.
  pub read_loop-bytes :
      (fuel k w n : ℕ) (io : Mem) (add ptr : ℕ) (kbuf : Mem) (i : ℕ)
      → IsBytes io
      → w ≢ 0
      → k ≤ fuel
      → n ≡ k * w
      → read_loop io_ops fuel w io add ptr n kbuf i ≡ memcpy kbuf ptr io add n i
  unfolding read_loop memcpy
  read_loop-bytes zero zero w n io add ptr kbuf i bytes wide enough whole =
      let none_left : n ≡ 0 = whole ∙ zero_mul w in ground (arith, none_left)
  read_loop-bytes zero (suc k) w n io add ptr kbuf i bytes wide enough whole =
      absurd (not_enough k enough)
  read_loop-bytes (suc fuel) zero w n io add ptr kbuf i bytes wide enough whole =
      let none_left : n ≡ 0 = whole ∙ zero_mul w in ground (arith, none_left, wide)
  read_loop-bytes (suc fuel) (suc k) w n io add ptr kbuf i bytes wide enough whole =
      let more : n ≡ w + k * w = whole ∙ suc_mul k w in
      let moved : Mem = store w kbuf ptr (io_ops.ioread w io add) in
      let rest =
        read_loop-bytes fuel k w (n - w) io (add + w) (ptr + w) moved i bytes wide (omega arith)
          (omega arith) in
      let one : moved i ≡ memcpy kbuf ptr io add w i =
        ap (λ v. store w kbuf ptr v i) (is_io.read w io add)
        ∙ store-load w io kbuf add ptr i bytes in
      if-holds (λ (m : Mem). m i ≡ memcpy kbuf ptr io add n i) (leb w n) _ _
        (λ _. rest ∙ memcpy-join kbuf moved io ptr add w n i (omega arith) one)
        (λ short. absurd (not_short w n (k * w) more short))

  -- `k` passes of a writing loop store the first byte of each width, and leave the others.
  pub write_loop-bytes :
      (fuel k w n : ℕ) (kbuf : Mem) (add ptr : ℕ) (io : Mem) (i : ℕ)
      → IsBytes kbuf
      → w ≢ 0
      → k ≤ fuel
      → n ≡ k * w
      → write_loop io_ops fuel w kbuf add ptr n io i ≡ strided w io add kbuf ptr n i
  unfolding write_loop strided
  write_loop-bytes zero zero w n kbuf add ptr io i bytes wide enough whole =
      let none_left : n ≡ 0 = whole ∙ zero_mul w in ground (arith, none_left)
  write_loop-bytes zero (suc k) w n kbuf add ptr io i bytes wide enough whole =
      absurd (not_enough k enough)
  write_loop-bytes (suc fuel) zero w n kbuf add ptr io i bytes wide enough whole =
      let none_left : n ≡ 0 = whole ∙ zero_mul w in ground (arith, none_left, wide)
  write_loop-bytes (suc fuel) (suc k) w n kbuf add ptr io i bytes wide enough whole =
      let more : n ≡ w + k * w = whole ∙ suc_mul k w in
      let moved : Mem = io_ops.iowrite8 (load w kbuf ptr % 256) io add in
      let rest =
        write_loop-bytes fuel k w (n - w) kbuf (add + w) (ptr + w) moved i bytes wide (omega arith)
          (omega arith) in
      let one : moved i ≡ (if i == add then kbuf ptr else io i) =
        is_io.write (load w kbuf ptr % 256) io add i
        ∙ ap (λ v. if i == add then v else io i) (load-first w kbuf ptr bytes wide) in
      if-holds (λ (m : Mem). m i ≡ strided w io add kbuf ptr n i) (leb w n) _ _
        (λ _. rest ∙ strided-join io moved kbuf add ptr w n i wide (omega arith) one)
        (λ short. absurd (not_short w n (k * w) more short))

  pub downgrade-fits :
      (mode isa_addr count : ℕ)
      → mode ≤ 3
      → let d = downgrade mode isa_addr count in
        (d ≤ 3) × (d ≡ 2 → count % 4 ≡ 0) × (d ≡ 1 → count % 2 ≡ 0)
  unfolding downgrade
  downgrade-fits mode isa_addr count small = ground arith
