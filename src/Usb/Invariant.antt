-- ===== src/Usb/Invariant.antt =====
-- What holds of a device of usb/usb-skeleton.c between two calls, through any calls and completions.
use ldd_samples.Prelude.{
  ℕ, ◌+◌, ◌≤◌, ◌≡◌, Bool, true, Option, none, some, List, [], ◌∷◌, arith, min, length,
  length-append, is_some,
}
use ldd_samples.Kernel.{Errno, enoent}
use ldd_samples.Kernel.Memory.{Mem, CopyFn}
use ldd_samples.Usb.Dev.{
  Dev, WriteUrb, writes_in_flight, read_callback, write_callback, kill_read, kill_list, kill_writes,
  complete_writes, draw_down, max_transfer,
}
use ldd_samples.Usb.Write.{Answers, write}

abbrev Fits : Option ℕ → ℕ → Type 0
Fits none size = Unit
Fits (some n) size = n ≤ size

-- The slots and the buffers of the writes in flight; the state of the read; what a disconnect leaves.
pub record IsSound (d : Dev) : Type 0 where
  pub slots : d.limit_sem + length d.submitted ≡ writes_in_flight
  pub held : d.buffers ≡ length d.submitted
  pub ongoing : d.ongoing_read ≡ is_some d.reading
  pub copied : d.bulk_in_copied ≤ d.bulk_in_filled
  pub filled : d.bulk_in_filled ≤ d.bulk_in_size
  pub idle : d.ongoing_read ≡ true → d.bulk_in_filled ≡ 0
  pub asked : Fits d.reading d.bulk_in_size
  pub gone : d.disconnected ≡ true → (d.submitted ≡ []) × (d.reading ≡ none)

-- What an operation on the device keeps, apart from its soundness.
pub record IsSame (d d' : Dev) : Type 0 where
  pub size : d'.bulk_in_size ≡ d.bulk_in_size
  pub kref : d'.kref ≡ d.kref
  pub disconnected : d'.disconnected ≡ d.disconnected
  pub attached : d'.attached ≡ d.attached
  pub deleted : d'.deleted ≡ d.deleted

pub record IsKept (d d' : Dev) : Type 0 where
  pub sound : IsSound d'
  pub same : IsSame d d'

pub read_callback-IsKept :
    (status : Option Errno) (actual : ℕ) (packet : Mem) (d : Dev)
    → IsSound d
    → d.ongoing_read ≡ true
    → actual ≤ d.bulk_in_size
    → IsKept d (read_callback status actual packet d)
unfolding read_callback
read_callback-IsKept status actual packet d s on small = ground arith

pub write_callback-IsKept :
    (status : Option Errno) (d : Dev) → IsSound d → IsKept d (write_callback status d)
unfolding write_callback
write_callback-IsKept status d s = ground arith

pub kill_read-IsKept : (d : Dev) → IsSound d → IsKept d (kill_read d)
unfolding kill_read
kill_read-IsKept d s = ground arith

pub IsSame-trans : (a b c : Dev) → IsSame a b → IsSame b c → IsSame a c
IsSame-trans a b c f g = ground arith

pub IsKept-then : (a b c : Dev) → IsKept a b → IsKept b c → IsKept a c
IsKept-then a b c f g = record { sound = g.sound; same = IsSame-trans a b c f.same g.same }

kill_list-IsKept : (us : List WriteUrb) (d : Dev) → IsSound d → IsKept d (kill_list us d)
unfolding kill_list
kill_list-IsKept [] d s = record { sound = s; same = ground arith }
kill_list-IsKept (u ∷ us) d s =
    let one = write_callback-IsKept (some enoent) d s in
    IsKept-then d _ _ one (kill_list-IsKept us (write_callback (some enoent) d) one.sound)

complete_writes-IsKept :
    (statuses : List (Option Errno)) (d : Dev) → IsSound d → IsKept d (complete_writes statuses d)
unfolding complete_writes
complete_writes-IsKept [] d s = record { sound = s; same = ground arith }
complete_writes-IsKept (status ∷ rest) d s =
    let one = write_callback-IsKept status d s in
    IsKept-then d _ _ one (complete_writes-IsKept rest (write_callback status d) one.sound)

pub kill_writes-IsKept : (d : Dev) → IsSound d → IsKept d (kill_writes d)
unfolding kill_writes
kill_writes-IsKept d s = kill_list-IsKept d.submitted d s

pub draw_down-IsKept :
    (waited : List (Option Errno)) (d : Dev) → IsSound d → IsKept d (draw_down waited d)
unfolding draw_down
draw_down-IsKept waited d s =
    let one = complete_writes-IsKept waited d s in
    let two = kill_writes-IsKept (complete_writes waited d) one.sound in
    let three = kill_read-IsKept (kill_writes (complete_writes waited d)) two.sound in
    IsKept-then d _ _ (IsKept-then d _ _ one two) three

pub write-IsKept :
    (copy : CopyFn) (k : Answers) (nonblock signal : Bool) (d : Dev) (user : Mem) (buffer count : ℕ)
    → IsSound d
    → elim (write copy k nonblock signal d user buffer count) as (λ o. Type 0) [
      | none ↦ Unit
      | some (d', r) ↦ IsKept d d'
    ]
unfolding write
write-IsKept copy k nonblock signal d user buffer count s =
    let n : ℕ = min count max_transfer in
    let u : WriteUrb = record { buf = (copy k.fresh 0 user buffer n).0; length = n } in
    ground (arith, length-append d.submitted (u ∷ []))
