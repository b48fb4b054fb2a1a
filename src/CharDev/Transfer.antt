-- ===== src/CharDev/Transfer.antt =====
-- `chardrv_read` and `chardrv_write` of char/lab6_char_fasync.c: what they move, what they leave
-- alone, and what they return.
use ldd_samples.Prelude.{
  ℕ, ◌+◌, ◌-◌, ◌^◌, ◌≤◌, ◌<◌, ◌≡◌, ◌⊎◌, Bool, true, false, ◌||◌, [], ◌∷◌, arith,
}
use ldd_samples.Kernel.{ret}
use ldd_samples.Kernel.Memory.{CopyFn, IsCopy}
use ldd_samples.CharDev.{
  membuff_size, Call, wake_up, sigio, returned, moved, read_ready, read, write,
}

-- The numbers of bytes that the copy of a write and of a read moves.
abbrev pub write_count : CopyFn → Call → (buf lbuf : ℕ) → ℕ
write_count copy c buf lbuf = lbuf - (copy c.dev.membuff c.pos c.user buf lbuf).1

abbrev pub read_count : CopyFn → Call → (buf lbuf : ℕ) → ℕ
read_count copy c buf lbuf = lbuf - (copy c.user buf c.dev.membuff c.pos lbuf).1

-- The device with its data taken: the state that a read leaves behind its wait.
abbrev pub taken : Call → Call
taken c = record c { dev = record (c.dev) { data_ready = false } }

pub moved-eq-sub :
    (lbuf left : ℕ) → lbuf ≤ membuff_size → left ≤ lbuf → moved lbuf left ≡ lbuf - left
unfolding moved
moved-eq-sub lbuf left h k = ground arith

module _ {copy : CopyFn} (is_copy : IsCopy copy) (c : Call) (buf lbuf : ℕ) where
  -- A write that fits the buffer returns the number of bytes copied, moves the position by it,
  -- marks the data ready, and wakes the readers before it signals the queued files.
  pub write-accepted :
      lbuf + c.pos ≤ membuff_size
      → let (c', events, r) = write copy c buf lbuf in
        (r ≡ ret (write_count copy c buf lbuf))
        × (c'.pos ≡ c.pos + write_count copy c buf lbuf)
        × (c'.dev.data_ready ≡ true)
        × (events ≡ wake_up ∷ sigio c.dev.async_queue ∷ [])
        × (c'.user ≡ c.user)
  unfolding write
  write-accepted fits = ground (
    arith,
    moved-eq-sub lbuf (copy c.dev.membuff c.pos c.user buf lbuf).1,
    is_copy.left-le c.dev.membuff c.pos c.user buf lbuf,
  )

  -- Each byte that the write counts is in the buffer afterwards.
  pub write-bytes :
      (a : ℕ)
      → lbuf + c.pos ≤ membuff_size
      → c.pos ≤ a
      → a < c.pos + write_count copy c buf lbuf
      → (write copy c buf lbuf).0.dev.membuff a ≡ c.user (buf + (a - c.pos))
  unfolding write
  write-bytes a fits lo hi =
      ground (arith, is_copy.copied c.dev.membuff c.pos c.user buf lbuf a lo hi)

  -- No write changes a byte outside the range that it was asked to write, nor one behind the
  -- buffer, whether it is accepted or refused.
  pub write-frame :
      (a : ℕ)
      → lbuf + c.pos < 2 ^ 64
      → (a < c.pos) ⊎ ((c.pos + lbuf ≤ a) ⊎ (membuff_size ≤ a))
      → (write copy c buf lbuf).0.dev.membuff a ≡ c.dev.membuff a
  unfolding write
  write-frame a small outside = ground (arith, is_copy.frame c.dev.membuff c.pos c.user buf lbuf a)

  -- A read with data at hand that fits the buffer returns the number of bytes copied, moves the
  -- position by it, takes the data, and leaves the buffer alone.
  pub read-accepted :
      (signal_pending : Bool)
      → lbuf + c.pos ≤ membuff_size
      → (c.dev.data_ready || signal_pending) ≡ true
      → (c' : Call) × (read copy signal_pending c buf lbuf
          ≡ returned c' (ret (read_count copy c buf lbuf)))
        × (c'.pos ≡ c.pos + read_count copy c buf lbuf)
        × (c'.dev ≡ (taken c).dev)
  unfolding read
  read-accepted signal_pending fits awake = (
    (read_ready copy (taken c) buf lbuf).0,
    ground (
      arith,
      moved-eq-sub lbuf (copy c.user buf c.dev.membuff c.pos lbuf).1,
      is_copy.left-le c.user buf c.dev.membuff c.pos lbuf,
    ),
    ground (
      arith,
      moved-eq-sub lbuf (copy c.user buf c.dev.membuff c.pos lbuf).1,
      is_copy.left-le c.user buf c.dev.membuff c.pos lbuf,
    ),
    ground arith,
  )

  -- Each byte that the read counts is in the caller's memory afterwards.
  pub read-bytes :
      (a : ℕ)
      → lbuf + c.pos ≤ membuff_size
      → buf ≤ a
      → a < buf + read_count copy c buf lbuf
      → (read_ready copy c buf lbuf).0.user a ≡ c.dev.membuff (c.pos + (a - buf))
  unfolding read_ready
  read-bytes a fits lo hi =
      ground (arith, is_copy.copied c.user buf c.dev.membuff c.pos lbuf a lo hi)

  -- A read writes the caller's memory in the range that it was given, and nowhere else.
  pub read-frame :
      (a : ℕ) → (a < buf) ⊎ (buf + lbuf ≤ a) → (read_ready copy c buf lbuf).0.user a ≡ c.user a
  unfolding read_ready
  read-frame a outside = ground (arith, is_copy.frame c.user buf c.dev.membuff c.pos lbuf a)
