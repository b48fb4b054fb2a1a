-- ===== src/Mouse/Reading.antt =====
-- `mymouse_read` of hardware/lab4_full_mouse_driver.c, and how it hands on what the handler of
-- interrupts put together.
use ldd_samples.Prelude.{
  ℕ, zero, suc, ◌+◌, ◌-◌, ◌≤◌, ◌<◌, ◌≡◌, ap, leb, ◌≢◌, ◌⊎◌, refl, ◌∙◌, Bool, true, false, List, [],
  ◌∷◌, ◌++◌, arith, ltb, ◌==◌, ◌&&◌, if◌then◌else◌,
}
use ldd_samples.Kernel.{ret, fail, einval, eagain, efault, restartsys}
use ldd_samples.Kernel.Memory.{Mem, CopyFn, IsCopy}
use ldd_samples.Mouse.{Mouse, has_magic, interrupt, asleep, returned, pad, read_packet, read}
use ldd_samples.Mouse.Packets.{NoMagic, interrupt-resync}

-- What is documented of `put_user` with a zero, where it meets no fault.
pub record IsPutZero (put_zero : Mem → ℕ → Mem) : Type 0 where
  pub here : (user : Mem) (a : ℕ) → put_zero user a a ≡ 0
  pub frame : (user : Mem) (a b : ℕ) → a ≢ b → put_zero user a b ≡ user b

module _ {put_zero : Mem → ℕ → Mem} (is_put : IsPutZero put_zero) where
  -- Padding writes its range and nothing else.
  pad-range :
      (n : ℕ) (user : Mem) (a b : ℕ)
      → pad put_zero user a n b ≡ (if leb a b && ltb b (a + n) then 0 else user b)
  unfolding pad
  pad-range zero user a b = ground arith
  pad-range (suc n) user a b =
      pad-range n (put_zero user a) (a + 1) b
      ∙ ground (arith, is_put.here user a, is_put.frame user a b, ap (put_zero user a))

module _ {copy : CopyFn} {put_zero : Mem → ℕ → Mem} (is_copy : IsCopy copy)
    (is_put : IsPutZero put_zero) (o_ndelay slept signal_pending : Bool) (m : Mouse) (user : Mem)
    (buf lbuf : ℕ) where
  -- With a packet ready, no signal that ended a wait, room for three bytes and a copy that meets no
  -- fault, a read fills the whole buffer: the packet, then zeros. It returns the buffer's length,
  -- takes the packet and leaves the interrupt enabled as often as before.
  pub read-packet :
      (i : ℕ)
      → 3 ≤ lbuf
      → m.ready ≡ true
      → (slept && signal_pending) ≡ false
      → (copy user buf m.bytes 0 3).1 ≡ 0
      → i < lbuf
      → (m' : Mouse) × (user' : Mem) × (read copy put_zero o_ndelay slept signal_pending m user buf
            lbuf
          ≡ returned m' user' (ret lbuf))
        × (m'.ready ≡ false)
        × (m'.disabled ≡ m.disabled)
        × (user' (buf + i) ≡ (if ltb i 3 then m.bytes i else 0))
  unfolding read read_packet
  read-packet i room ready quiet whole inside = (
    record m { ready = false },
    pad put_zero (copy user buf m.bytes 0 3).0 (buf + 3) (lbuf - 3),
    ground arith,
    refl,
    refl,
    pad-range is_put (lbuf - 3) (copy user buf m.bytes 0 3).0 (buf + 3) (buf + i)
        ∙ ground (arith, is_copy.copied user buf m.bytes 0 3 (buf + i), ap m.bytes (back i)),
  )
    where
      back : (i : ℕ) → 0 + (buf + i - buf) ≡ i
      back i = omega arith

  -- With a packet ready, room for three bytes and no signal that ended a wait, a read whose copy
  -- faults returns EFAULT with the packet still ready, and the interrupt is disabled once more than
  -- it is enabled.
  pub read-fault :
      3 ≤ lbuf
      → m.ready ≡ true
      → (slept && signal_pending) ≡ false
      → (copy user buf m.bytes 0 3).1 ≢ 0
      → read copy put_zero o_ndelay slept signal_pending m user buf lbuf
        ≡ returned
            (record m { disabled = m.disabled + 1 })
            (copy user buf m.bytes 0 3).0
            (fail efault)
  unfolding read read_packet
  read-fault room ready quiet fault = ground arith

  -- A request of less than three bytes, or one that finds no packet, changes nothing: it returns
  -- EINVAL, EAGAIN or ERESTARTSYS, or sleeps on.
  pub read-nothing :
      (lbuf < 3) ⊎ (m.ready ≡ false)
      → read copy put_zero o_ndelay slept signal_pending m user buf lbuf ≡ (
          if ltb lbuf 3
          then returned m user (fail einval)
          else if slept && signal_pending
          then returned m user (fail restartsys)
          else if o_ndelay
          then returned m user (fail eagain)
          else if signal_pending
          then returned m user (fail restartsys)
          else asleep)
  unfolding read
  read-nothing why = ground arith

-- An interrupt between packets that brings a packet behind any number of stray bytes, and a read of
-- three bytes with a copy that meets no fault: the reader has the packet, in its order.
pub interrupt-read :
    {copy : CopyFn} {put_zero : Mem → ℕ → Mem}
    → IsCopy copy
    → IsPutZero put_zero
    → (junk : List ℕ) (m : Mouse) (b0 b1 b2 : ℕ) (user : Mem) (buf i : ℕ) → m.num_byte_in ≡ 0
    → NoMagic junk
    → has_magic b0 ≡ true
    → (copy user buf (interrupt m (junk ++ (b0 ∷ b1 ∷ b2 ∷ []))).0.bytes 0 3).1 ≡ 0
    → i < 3
    → (m' : Mouse) × (user' : Mem) × (read copy put_zero false false false
          (interrupt m (junk ++ (b0 ∷ b1 ∷ b2 ∷ []))).0
          user
          buf
          3
        ≡ returned m' user' (ret 3))
      × (user' (buf + i) ≡ (if i == 2 then b2 else if i == 1 then b1 else b0))
interrupt-read is_copy is_put junk m b0 b1 b2 user buf i start no_magic magic whole inside =
    let framed = interrupt-resync junk m b0 b1 b2 start no_magic magic in
    let (m', user', e, _, _, byte) =
      read-packet is_copy is_put false false false (interrupt m (junk ++ (b0 ∷ b1 ∷ b2 ∷ []))).0
        user buf 3 i (omega arith) (ap (λ k. k.ready) framed) refl whole inside in
    (m', user', e, byte ∙ ground (arith, ap (λ k. k.bytes i) framed))
