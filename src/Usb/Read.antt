-- ===== src/Usb/Read.antt =====
-- `skel_do_read_io` and `skel_read` of usb/usb-skeleton.c.
use ldd_samples.Prelude.{
  ℕ, ◌+◌, ◌-◌, ◌^◌, Bool, true, false, Option, none, some, List, [], ◌∷◌, ltb, ◌==◌, if◌then◌else◌,
  min,
}
use ldd_samples.Kernel.{
  Errno, Ret, ret, fail, enomem, eio, enodev, eagain, efault, eintr, restartsys,
}
use ldd_samples.Kernel.Memory.{Mem, CopyFn}
use ldd_samples.Usb.Dev.{Dev, reported, read_callback}

-- The error that a failed submission is turned into.
pub io_error : Errno → Errno
io_error enomem = enomem
io_error e = eio

-- `skel_do_read_io`, by the status of `usb_submit_urb`.
unfoldable pub do_read_io : (submit : Option Errno) → (count : ℕ) → Dev → Dev × Option Errno
unfolding io_error
do_read_io none count d = (
  record d {
    ongoing_read = true;
    bulk_in_filled = 0;
    bulk_in_copied = 0;
    reading = some (min d.bulk_in_size count);
  },
  none,
)
do_read_io (some e) count d =
    (record d { ongoing_read = false; bulk_in_filled = 0; bulk_in_copied = 0 }, some (io_error e))

-- The difference of two sizes, which wraps where the second is the larger.
abbrev pub size_sub : (a b : ℕ) → ℕ
size_sub a b = if ltb a b then a + 2 ^ 64 - b else a - b

-- What a pass of `skel_read` comes to: it goes to `retry`, or to `exit` with the caller's memory and the
-- result.
pub data Pass : Type 0 where
  retry : Dev → Pass
  finished : Dev → Mem → Ret → Pass

-- After `skel_do_read_io` where there was nothing to deliver.
unfoldable pub started : Mem → Dev × Option Errno → Pass
started user (d, none) = retry d
started user (d, some e) = finished d user (fail e)

module _ (copy_to_user : CopyFn) where
  -- The copy of a chunk, and the read ahead where the caller asks for more, whose failure goes
  -- unnoticed.
  unfoldable pub deliver :
      (submit : Option Errno) → (available : ℕ) → Dev → Mem → (buffer count : ℕ) → Pass
  unfolding do_read_io
  deliver submit available d user buffer count =
      let chunk = min available count in
      let (user', left) = copy_to_user user buffer d.bulk_in_buffer d.bulk_in_copied chunk in
      let d' = record d { bulk_in_copied = d.bulk_in_copied + chunk } in
      finished (if ltb available count then (do_read_io submit (count - chunk) d').0 else d') user'
        (if left == 0 then ret chunk else fail efault)

  -- From `errors must be reported` on, where no read is under way.
  unfoldable pub after_errors :
      (submit : Option Errno) → Option Errno → Dev → Mem → (buffer count : ℕ) → Pass
  unfolding deliver started reported
  after_errors submit (some e) d user buffer count =
      finished (record d { errors = none }) user (fail (reported e))
  after_errors submit none d user buffer count =
      if d.bulk_in_filled == 0
      then started user (do_read_io submit count d)
      else if size_sub d.bulk_in_filled d.bulk_in_copied == 0
      then started user (do_read_io submit count d)
      else deliver submit (size_sub d.bulk_in_filled d.bulk_in_copied) d user buffer count

  unfoldable pub pass : (submit : Option Errno) → Dev → Mem → (buffer count : ℕ) → Pass
  unfolding after_errors
  pass submit d user buffer count = after_errors submit d.errors d user buffer count

-- What the USB core does in a round of `skel_read`: how a wait for the read under way ends, and the status
-- of a submission.
pub data Wait : Type 0 where
  interrupted : Wait
  completes : (status : Option Errno) → (actual : ℕ) → (packet : Mem) → Wait

pub record Turn : Type 0 where
  pub wait : Wait
  pub submit : Option Errno

-- A read that waits still, or has returned.
pub data Outcome : Type 0 where
  waiting : Dev → Outcome
  returned : Dev → Mem → Ret → Outcome

-- A `retry` goes to the next round.
unfoldable pub after_pass : (Dev → Mem → Outcome) → Mem → Pass → Outcome
after_pass next user (retry d) = next d user
after_pass next user (finished d user' r) = returned d user' r

module _ (copy_to_user : CopyFn) (nonblock : Bool) where
  -- A round from `retry` on: `next` goes on where it comes to `retry` again.
  unfoldable pub round : (Dev → Mem → Outcome) → Turn → Dev → Mem → (buffer count : ℕ) → Outcome
  unfolding after_pass
  round next t d user buffer count =
      if d.ongoing_read
      then (if nonblock then returned d user (fail eagain) else elim t.wait [
        | interrupted ↦ returned d user (fail restartsys)
        | completes status actual packet ↦
            after_pass next user
              (pass copy_to_user t.submit (read_callback status actual packet d) user buffer count)
      ])
      else after_pass next user (pass copy_to_user t.submit d user buffer count)

  unfoldable pub read_rounds : List Turn → Dev → Mem → (buffer count : ℕ) → Outcome
  unfolding round
  read_rounds [] d user buffer count = waiting d
  read_rounds (t ∷ rest) d user buffer count =
      round (λ d' user'. read_rounds rest d' user' buffer count) t d user buffer count

  -- `locked` is false where the wait for `io_mutex` is interrupted, for which `mutex_lock_interruptible`
  -- returns -EINTR.
  unfoldable pub read : (locked : Bool) → List Turn → Dev → Mem → (buffer count : ℕ) → Outcome
  unfolding read_rounds
  read locked turns d user buffer count =
      if count == 0
      then returned d user (ret 0)
      else if locked
      then (if d.disconnected
          then returned d user (fail enodev)
          else read_rounds turns d user buffer count)
      else returned d user (fail eintr)
