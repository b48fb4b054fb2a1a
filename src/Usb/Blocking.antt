-- ===== src/Usb/Blocking.antt =====
-- A blocking read of usb/usb-skeleton.c that finds nothing: it sleeps until the device has sent data.
use ldd_samples.Prelude.{
  ℕ, ◌+◌, ◌-◌, ◌≡◌, ◌≢◌, ◌⊎◌, refl, ap, subst, ◌∙◌, true, false, none, List, [], ◌∷◌, ◌++◌, map,
  arith, ltb, if◌then◌else◌, min,
}
use ldd_samples.Kernel.{ret}
use ldd_samples.Kernel.Memory.{Mem, CopyFn, memcpy, memcpy-start}
use ldd_samples.Kernel.Slice.{IsWhole, copied-slice, slice, slice-ext}
use ldd_samples.Usb.Dev.{Dev, read_callback}
use ldd_samples.Usb.Read.{
  pass, do_read_io, started, deliver, after_errors, Turn, Outcome, waiting, returned, after_pass,
  round, read_rounds, read, Wait, completes,
}

-- A wait that ends with a packet, and a submission that is taken.
abbrev pub arrival : ℕ → Mem → Turn
arrival actual packet = record { wait = completes none actual packet; submit = none }

-- The first turn, which finds no read under way, and then one for each packet.
abbrev pub arrivals : List Mem → Turn → List Turn
arrivals empties last = map (arrival 0) empties ++ (last ∷ [])

record IsWaiting (d : Dev) : Type 0 where
  on : d.ongoing_read ≡ true
  well : d.errors ≡ none
  filled : d.bulk_in_filled ≡ 0
  copied : d.bulk_in_copied ≡ 0

module _ (copy : CopyFn) (buffer count : ℕ) where
  again : Mem → Dev → Dev
  unfolding do_read_io
  again packet d = (do_read_io none count (read_callback none 0 packet d)).0

  again-IsWaiting : (packet : Mem) (d : Dev) → IsWaiting d → IsWaiting (again packet d)
  unfolding again read_callback
  again-IsWaiting packet d w = ground arith

  round-again :
      (next : Dev → Mem → Outcome) (packet : Mem) (d : Dev) (user : Mem)
      → IsWaiting d
      → round copy false next (arrival 0 packet) d user buffer count ≡ next (again packet d) user
  unfolding round pass after_errors started after_pass again do_read_io read_callback
  round-again next packet d user w = ground arith

  -- The buffer after a packet, and what a copy of the chunk makes of the caller's memory.
  after : ℕ → Mem → Dev → Mem
  after actual packet d = memcpy d.bulk_in_buffer 0 packet 0 actual

  chunk_of : ℕ → Dev → ℕ
  chunk_of actual d = min (actual - d.bulk_in_copied) count

  ended : ℕ → Mem → Dev → Dev
  unfolding read_callback chunk_of do_read_io
  ended actual packet d =
      let e = read_callback none actual packet d in
      let d' = record e { bulk_in_copied = d.bulk_in_copied + chunk_of actual d } in
      if ltb (actual - d.bulk_in_copied) count
      then (do_read_io none (count - chunk_of actual d) d').0
      else d'

  copied_user : ℕ → Mem → Dev → Mem → Mem × ℕ
  unfolding after chunk_of
  copied_user actual packet d user =
      copy user buffer (after actual packet d) d.bulk_in_copied (chunk_of actual d)

  round-last :
      (next : Dev → Mem → Outcome) (actual : ℕ) (packet : Mem) (d : Dev) (user : Mem)
      → IsWaiting d
      → actual ≢ 0
      → (copied_user actual packet d user).1 ≡ 0
      → round copy false next (arrival actual packet) d user buffer count
        ≡ returned
            (ended actual packet d)
            (copied_user actual packet d user).0
            (ret (chunk_of actual d))
  unfolding round pass after_errors started after_pass deliver do_read_io read_callback copied_user
      ended chunk_of after
  round-last next actual packet d user w some_data whole = ground arith

  chunk_of-start : (actual : ℕ) (d : Dev) → IsWaiting d → chunk_of actual d ≡ min actual count
  unfolding chunk_of
  chunk_of-start actual d w = ground (arith, w.copied)

  -- The caller gets the packet's first bytes.
  copied_user-slice :
      (is_whole : IsWhole copy) (actual : ℕ) (packet : Mem) (d : Dev) (user : Mem)
      → IsWaiting d
      → slice (copied_user actual packet d user).0 buffer (chunk_of actual d)
        ≡ slice packet 0 (chunk_of actual d)
  unfolding copied_user chunk_of after
  copied_user-slice is_whole actual packet d user w =
      copied-slice copy is_whole user (after actual packet d) buffer d.bulk_in_copied
        (chunk_of actual d)
      ∙ slice-ext (after actual packet d) packet d.bulk_in_copied 0 (chunk_of actual d) (λ i small.
        memcpy-start d.bulk_in_buffer packet 0 actual (d.bulk_in_copied + i)
        ∙ ground (arith, w.copied, ap packet (same i w.copied)))
    where
      same : (i : ℕ) → d.bulk_in_copied ≡ 0 → 0 + (d.bulk_in_copied + i) ≡ 0 + i
      same i start = omega arith

  -- A blocking read whose copy meets no fault and that waits, for however many empty packets, until one
  -- with data arrives: it returns the first bytes of that packet, as many as it asked for and there are.
  rounds-arrive :
      (is_whole : IsWhole copy) (empties : List Mem) (actual : ℕ) (packet : Mem) (d : Dev)
      (user : Mem)
      → IsWaiting d
      → actual ≢ 0
      → (d' : Dev) × (user' : Mem) × (read_rounds copy false
            (arrivals empties (arrival actual packet))
            d
            user
            buffer
            count
          ≡ returned d' user' (ret (min actual count)))
        × (slice user' buffer (min actual count) ≡ slice packet 0 (min actual count))
  unfolding read_rounds copied_user
  rounds-arrive is_whole [] actual packet d user w some_data = (
    ended actual packet d,
    (copied_user actual packet d user).0,
    round-last (λ d' user'. waiting d') actual packet d user w some_data
          (is_whole.whole user buffer (after actual packet d) d.bulk_in_copied (chunk_of actual d))
        ∙ ap (λ n. returned (ended actual packet d) (copied_user actual packet d user).0 (ret n))
            (chunk_of-start actual d w),
    subst (λ n. slice (copied_user actual packet d user).0 buffer n ≡ slice packet 0 n)
        (chunk_of-start actual d w) (copied_user-slice is_whole actual packet d user w),
  )
  rounds-arrive is_whole (p ∷ ps) actual packet d user w some_data =
      let rest =
        rounds-arrive is_whole ps actual packet (again p d) user (again-IsWaiting p d w)
          some_data in
      (
        rest.0,
        rest.1,
        round-again
              (λ d' user'.
                read_rounds copy false (arrivals ps (arrival actual packet)) d' user' buffer count)
              p d user w
            ∙ rest.2,
        rest.3,
      )

  start-IsWaiting : (d : Dev) → d.errors ≡ none → IsWaiting (do_read_io none count d).0
  unfolding do_read_io
  start-IsWaiting d well = record { on = refl; well = well; filled = refl; copied = refl }

  round-start :
      (next : Dev → Mem → Outcome) (w : Wait) (d : Dev) (user : Mem)
      → d.ongoing_read ≡ false
      → d.errors ≡ none
      → (d.bulk_in_filled ≡ 0) ⊎ (d.bulk_in_filled ≡ d.bulk_in_copied)
      → round copy false next (record { wait = w; submit = none }) d user buffer count
        ≡ next (do_read_io none count d).0 user
  unfolding round pass after_errors started after_pass do_read_io
  round-start next w d user idle well nothing = ground arith

  read-started :
      (turns : List Turn) (d : Dev) (user : Mem)
      → count ≢ 0
      → d.disconnected ≡ false
      → read copy false true turns d user buffer count
        ≡ read_rounds copy false turns d user buffer count
  unfolding read
  read-started turns d user some_bytes here = ground (arith, here)

  -- A blocking read of a byte or more, on a device that is there, with no error to report, no read under
  -- way and nothing left in the buffer, where the submissions are taken and the copy meets no fault: it
  -- sleeps through any number of empty packets, and returns with the first that has data; the caller gets
  -- that packet's first bytes, as many as it asked for and there are.
  pub read-arrival :
      (is_whole : IsWhole copy) (w : Wait) (empties : List Mem) (actual : ℕ) (packet : Mem)
      (d : Dev) (user : Mem)
      → count ≢ 0
      → d.disconnected ≡ false
      → d.ongoing_read ≡ false
      → d.errors ≡ none
      → (d.bulk_in_filled ≡ 0) ⊎ (d.bulk_in_filled ≡ d.bulk_in_copied)
      → actual ≢ 0
      → (d' : Dev) × (user' : Mem) × (read copy false true
            (record { wait = w; submit = none } ∷ arrivals empties (arrival actual packet))
            d
            user
            buffer
            count
          ≡ returned d' user' (ret (min actual count)))
        × (slice user' buffer (min actual count) ≡ slice packet 0 (min actual count))
  unfolding read_rounds
  read-arrival is_whole w empties actual packet d user some_bytes here idle well nothing some_data =
      let turns : List Turn = arrivals empties (arrival actual packet) in
      let (d', user', result, bytes) =
        rounds-arrive is_whole empties actual packet (do_read_io none count d).0 user
          (start-IsWaiting d well) some_data in
      (
        d',
        user',
        read-started (record { wait = w; submit = none } ∷ turns) d user some_bytes here
            ∙ round-start (λ e user'. read_rounds copy false turns e user' buffer count) w d user
                idle well nothing
            ∙ result,
        bytes,
      )
