-- ===== src/Usb/Flow.antt =====
-- Any order of reads and completions on the reading side of usb/usb-skeleton.c, as a stream of bytes.
use ldd_samples.Prelude.{
  ℕ, ◌+◌, ◌-◌, ◌≤◌, ◌≡◌, refl, sym, ap, ◌∙◌, Bool, true, Option, none, some, List, [], ◌∷◌, ◌++◌,
  append_assoc, append-nil, arith, if◌then◌else◌, if-holds,
}
use ldd_samples.Kernel.{Errno}
use ldd_samples.Kernel.Memory.{Mem, CopyFn, memcpy, memcpy-start}
use ldd_samples.Kernel.Slice.{IsWhole, slice, slice-ext}
use ldd_samples.Usb.Dev.{Dev, read_callback}
use ldd_samples.Usb.Read.{Turn, Outcome, read}
use ldd_samples.Usb.Invariant.{IsSound, read_callback-IsKept}
use ldd_samples.Usb.Stream.{unread, outcome_got, empty-unread, read-stream}
use ldd_samples.Usb.Rounds.{AllFit, outcome_dev, read-IsKept}

-- Nonblocking reads and completions of the read URB, in any order.
pub data Event : Type 0 where
  reads : (locked : Bool) (turns : List Turn) (user : Mem) (buffer count : ℕ) → Event
  completes : (status : Option Errno) (actual : ℕ) (packet : Mem) → Event

-- The device, the bytes that it sent in packets that arrived, and those that the callers got.
pub record Flow : Type 0 where
  pub dev : Dev
  pub sent : List ℕ
  pub received : List ℕ

unfoldable pub payload : Option Errno → ℕ → Mem → List ℕ
unfolding slice
payload none actual packet = slice packet 0 actual
payload (some e) actual packet = []

module _ (copy : CopyFn) where
  -- A completion needs a read under way.
  unfoldable pub step : Flow → Event → Flow
  unfolding read read_callback
  step f (reads locked turns user buffer count) =
      let o = read copy true locked turns f.dev user buffer count in
      record f { dev = outcome_dev o; received = f.received ++ outcome_got buffer o }
  step f (completes status actual packet) =
      if f.dev.ongoing_read
      then record f {
        dev = read_callback status actual packet f.dev;
        sent = f.sent ++ payload status actual packet;
      }
      else f

  unfoldable pub steps : Flow → List Event → Flow
  unfolding step
  steps f [] = f
  steps f (e ∷ es) = steps (step f e) es

abbrev pub EventsFit : ℕ → List Event → Type 0
EventsFit size [] = Unit
EventsFit size (reads locked turns user buffer count ∷ es) = AllFit size turns × EventsFit size es
EventsFit size (completes status actual packet ∷ es) = (actual ≤ size) × EventsFit size es

-- Every byte sent has been received in its place, or waits in the buffer.
pub record IsStream (size : ℕ) (f : Flow) : Type 0 where
  pub sound : IsSound f.dev
  pub buffer : f.dev.bulk_in_size ≡ size
  pub order : f.sent ≡ f.received ++ unread f.dev

idle-unread : (d : Dev) → IsSound d → d.ongoing_read ≡ true → unread d ≡ []
idle-unread d s on = empty-unread d (rw (s.idle on) (omega arith))

-- While a read is under way nothing is left, so that a packet follows what was received before.
completes-unread :
    (status : Option Errno) (actual : ℕ) (packet : Mem) (d : Dev)
    → IsSound d
    → d.ongoing_read ≡ true
    → unread (read_callback status actual packet d) ≡ payload status actual packet
unfolding read_callback payload unread memcpy
completes-unread none actual packet d s on =
    let same : d.bulk_in_copied ≡ 0 = from_start (s.idle on) s.copied in
    rw (same, whole)
      (slice-ext (memcpy d.bulk_in_buffer 0 packet 0 actual) packet 0 0 actual
        (λ i small. memcpy-start d.bulk_in_buffer packet 0 actual (0 + i) ∙ ground arith))
  where
    from_start : d.bulk_in_filled ≡ 0 → d.bulk_in_copied ≤ d.bulk_in_filled → d.bulk_in_copied ≡ 0
    from_start empty fits = omega arith

    whole : actual - 0 ≡ actual
    whole = omega arith
completes-unread (some e) actual packet d s on = idle-unread d s on

module _ (copy : CopyFn) (is_whole : IsWhole copy) (size : ℕ) where
  step-IsStream :
      (f : Flow) (e : Event)
      → IsStream size f
      → EventsFit size (e ∷ [])
      → IsStream size (step copy f e)
  unfolding step
  step-IsStream f (reads locked turns user buffer count) s (fits, _) =
      let o : Outcome = read copy true locked turns f.dev user buffer count in
      let kept =
        read-IsKept copy true buffer count locked turns f.dev user s.sound (rw s.buffer fits) in
      record {
        sound = kept.sound;
        buffer = kept.same.size ∙ s.buffer;
        order =
            s.order
            ∙ ap (λ l. f.received ++ l)
                (read-stream copy is_whole locked turns f.dev user buffer count s.sound)
            ∙ sym (append_assoc f.received (outcome_got buffer o) (unread (outcome_dev o)));
      }
  step-IsStream f (completes status actual packet) s (fits, _) =
      if-holds (IsStream size) f.dev.ongoing_read _ _
        (λ on.
          let kept =
            read_callback-IsKept status actual packet f.dev s.sound on (rw s.buffer fits) in
          let drained : f.sent ≡ f.received =
            s.order
            ∙ ap (λ l. f.received ++ l) (idle-unread f.dev s.sound on)
            ∙ append-nil f.received in
          record {
            sound = kept.sound;
            buffer = kept.same.size ∙ s.buffer;
            order = rw (drained, completes-unread status actual packet f.dev s.sound on) refl;
          })
        (λ _. s)

  -- Where no copy meets a fault and no packet is longer than the read buffer: after any nonblocking reads
  -- and completions, failed ones among them and whatever the submissions answer, the bytes that the
  -- device sent are those that the callers got, in their order, and then those that wait in the buffer.
  pub steps-IsStream :
      (f : Flow) (es : List Event)
      → IsStream size f
      → EventsFit size es
      → IsStream size (steps copy f es)
  unfolding steps
  steps-IsStream f [] s fits = s
  steps-IsStream f (reads locked turns user buffer count ∷ es) s (fits, later) =
      let e : Event = reads locked turns user buffer count in
      steps-IsStream (step copy f e) es (step-IsStream f e s (fits, tt)) later
  steps-IsStream f (completes status actual packet ∷ es) s (fits, later) =
      let e : Event = completes status actual packet in
      steps-IsStream (step copy f e) es (step-IsStream f e s (fits, tt)) later
