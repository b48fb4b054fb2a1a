-- ===== src/Usb/Session.antt =====
-- Any sequence of calls on the files of a device of usb/usb-skeleton.c, of completions by the USB core,
-- and of events of the bus.
use ldd_samples.Prelude.{
  ℕ, ◌+◌, ◌-◌, ◌≤◌, ◌≡◌, Bool, true, Option, none, some, List, [], ◌∷◌, arith, ◌==◌, not,
  if◌then◌else◌, if-holds,
}
use ldd_samples.Kernel.{Errno, Ret, ret, fail}
use ldd_samples.Kernel.Memory.{Mem, CopyFn}
use ldd_samples.Usb.Dev.{Dev, read_callback, write_callback}
use ldd_samples.Usb.Read.{Turn, read}
use ldd_samples.Usb.Write.{Answers, write}
use ldd_samples.Usb.Control.{open_dev, release, flush, disconnect, suspend, pre_reset, post_reset}
use ldd_samples.Usb.Invariant.{
  IsSound, IsKept, read_callback-IsKept, write_callback-IsKept, write-IsKept,
}
use ldd_samples.Usb.Rounds.{AllFit, outcome_dev, read-IsKept}
use ldd_samples.Usb.Draining.{
  flush-IsKept, suspend-IsKept, reset-IsKept, disconnect-IsSound, disconnect-counts,
}

-- A device and the number of its open files.
pub record System : Type 0 where
  pub dev : Dev
  pub files : ℕ

pub data Op : Type 0 where
  opens : (found : Bool) (autopm : Option Errno) → Op
  releases : Op
  reads : (nonblock locked : Bool) (turns : List Turn) (user : Mem) (buffer count : ℕ) → Op
  writes : (nonblock signal : Bool) (k : Answers) (user : Mem) (buffer count : ℕ) → Op
  flushes : (waited : List (Option Errno)) → Op
  read_completes : (status : Option Errno) (actual : ℕ) (packet : Mem) → Op
  write_completes : (status : Option Errno) → Op
  suspends : (waited : List (Option Errno)) → Op
  resets : (waited : List (Option Errno)) → Op
  disconnects : Op

abbrev pub after_write : Dev → Option (Dev × Ret) → Dev
after_write d none = d
after_write d (some (d', r)) = d'

abbrev pub opened_files : ℕ → Dev × Ret → System
opened_files n (d, ret r) = record { dev = d; files = n + 1 }
opened_files n (d, fail e) = record { dev = d; files = n }

-- A call on a file needs an open one, a completion an active URB, and the bus disconnects once.
on_file : System → Dev → System
on_file s d = if s.files == 0 then s else record s { dev = d }

module _ (to_user from_user : CopyFn) where
  unfoldable pub perform : System → Op → System
  unfolding on_file
  perform s (opens found autopm) = opened_files s.files (open_dev found autopm s.dev)
  perform s releases =
      if s.files == 0 then s else record { dev = (release s.dev).0; files = s.files - 1 }
  perform s (reads nonblock locked turns user buffer count) =
      on_file s (outcome_dev (read to_user nonblock locked turns s.dev user buffer count))
  perform s (writes nonblock signal k user buffer count) =
      on_file s (after_write s.dev (write from_user k nonblock signal s.dev user buffer count))
  perform s (flushes waited) = on_file s (flush waited s.dev).0
  perform s (read_completes status actual packet) =
      if s.dev.ongoing_read then record s { dev = read_callback status actual packet s.dev } else s
  perform s (write_completes status) = record s { dev = write_callback status s.dev }
  perform s (suspends waited) = record s { dev = (suspend waited s.dev).0 }
  perform s (resets waited) =
      if s.dev.attached then record s { dev = post_reset (pre_reset waited s.dev) } else s
  perform s disconnects = if s.dev.attached then record s { dev = disconnect s.dev } else s

  unfoldable pub perform_all : System → List Op → System
  perform_all s [] = s
  perform_all s (op ∷ ops) = perform_all (perform s op) ops

abbrev pub OpFits : ℕ → Op → Type 0
OpFits size (reads nonblock locked turns user buffer count) = AllFit size turns
OpFits size (read_completes status actual packet) = actual ≤ size
OpFits size op = Unit

abbrev pub OpsFit : ℕ → List Op → Type 0
OpsFit size [] = Unit
OpsFit size (op ∷ ops) = OpFits size op × OpsFit size ops

-- The references: one for each open file, and one for the bus until the disconnect; the device is
-- deleted when there is none left.
pub record IsCounted (s : System) : Type 0 where
  pub refs : s.dev.kref ≡ s.files + (if s.dev.disconnected then 0 else 1)
  pub bound : s.dev.attached ≡ not s.dev.disconnected
  pub last : s.dev.deleted ≡ (s.dev.kref == 0)

pub record IsSafe (size : ℕ) (s : System) : Type 0 where
  pub sound : IsSound s.dev
  pub counted : IsCounted s
  pub buffer : s.dev.bulk_in_size ≡ size

-- A kept device in place of the old one.
set_dev-IsSafe :
    (size : ℕ) (s : System) (d : Dev)
    → IsSafe size s
    → IsKept s.dev d
    → IsSafe size (record s { dev = d })
set_dev-IsSafe size s d safe kept = ground arith

on_file-IsSafe :
    (size : ℕ) (s : System) (d : Dev) → IsSafe size s → IsKept s.dev d → IsSafe size (on_file s d)
unfolding on_file
on_file-IsSafe size s d safe kept =
    if-holds (IsSafe size) (s.files == 0) _ _ (λ _. safe) (λ _. set_dev-IsSafe size s d safe kept)

open_dev-IsSafe :
    (size : ℕ) (s : System) (found : Bool) (autopm : Option Errno)
    → IsSafe size s
    → IsSafe size (opened_files s.files (open_dev found autopm s.dev))
unfolding open_dev
open_dev-IsSafe size s found autopm safe = ground arith

release-IsSafe :
    (size : ℕ) (s : System)
    → IsSafe size s
    → IsSafe size
        (if s.files == 0 then s else record { dev = (release s.dev).0; files = s.files - 1 })
unfolding release
release-IsSafe size s safe = ground arith

disconnect-IsSafe :
    (size : ℕ) (s : System)
    → IsSafe size s
    → s.dev.attached ≡ true
    → IsSafe size (record s { dev = disconnect s.dev })
disconnect-IsSafe size s safe here =
    let sound = disconnect-IsSound s.dev safe.sound in
    let counts = disconnect-counts s.dev safe.sound in ground arith

after_write-IsKept :
    (d : Dev) (o : Option (Dev × Ret))
    → IsSound d
    → elim o as (λ x. Type 0) [ none ↦ Unit | some (d', r) ↦ IsKept d d' ]
    → IsKept d (after_write d o)
after_write-IsKept d none s kept = record { sound = s; same = ground arith }
after_write-IsKept d (some (d', r)) s kept = kept

module _ (to_user from_user : CopyFn) (size : ℕ) where
  perform-IsSafe :
      (s : System) (op : Op)
      → IsSafe size s
      → OpFits size op
      → IsSafe size (perform to_user from_user s op)
  unfolding perform
  perform-IsSafe s (opens found autopm) safe fits = open_dev-IsSafe size s found autopm safe
  perform-IsSafe s releases safe fits = release-IsSafe size s safe
  perform-IsSafe s (reads nonblock locked turns user buffer count) safe fits =
      on_file-IsSafe size s _ safe (
        read-IsKept to_user nonblock buffer count locked turns s.dev user safe.sound
          (rw safe.buffer fits))
  perform-IsSafe s (writes nonblock signal k user buffer count) safe fits =
      on_file-IsSafe size s _ safe (
        after_write-IsKept s.dev _ safe.sound
          (write-IsKept from_user k nonblock signal s.dev user buffer count safe.sound))
  perform-IsSafe s (flushes waited) safe fits =
      on_file-IsSafe size s _ safe (flush-IsKept waited s.dev safe.sound)
  perform-IsSafe s (read_completes status actual packet) safe fits =
      if-holds (IsSafe size) s.dev.ongoing_read _ _
        (λ on.
          set_dev-IsSafe size s _ safe
            (read_callback-IsKept status actual packet s.dev safe.sound on (rw safe.buffer fits)))
        (λ _. safe)
  perform-IsSafe s (write_completes status) safe fits =
      set_dev-IsSafe size s _ safe (write_callback-IsKept status s.dev safe.sound)
  perform-IsSafe s (suspends waited) safe fits =
      set_dev-IsSafe size s _ safe (suspend-IsKept waited s.dev safe.sound)
  perform-IsSafe s (resets waited) safe fits =
      if-holds (IsSafe size) s.dev.attached _ _
        (λ _. set_dev-IsSafe size s _ safe (reset-IsKept waited s.dev safe.sound)) (λ _. safe)
  perform-IsSafe s disconnects safe fits =
      if-holds (IsSafe size) s.dev.attached _ _ (λ here. disconnect-IsSafe size s safe here)
        (λ _. safe)

-- Whatever calls, completions and bus events follow one another, where no packet is longer than the read
-- buffer: the free write slots and the writes in flight are eight together, each write in flight has its
-- buffer, a read is under way exactly where its URB is active and then nothing is left to deliver, the
-- delivered part of the read buffer lies in its filled part and that in the buffer, nothing is in flight
-- after a disconnect, and the device is deleted exactly when no file is open and the bus has left it.
pub perform_all-IsSafe :
    (to_user from_user : CopyFn) (size : ℕ) (s : System) (ops : List Op)
    → IsSafe size s
    → OpsFit size ops
    → IsSafe size (perform_all to_user from_user s ops)
unfolding perform_all
perform_all-IsSafe to_user from_user size s [] safe fits = safe
perform_all-IsSafe to_user from_user size s (op ∷ ops) safe (now, later) =
    perform_all-IsSafe to_user from_user size (perform to_user from_user s op) ops
      (perform-IsSafe to_user from_user size s op safe now) later
