-- ===== src/Usb/Write.antt =====
-- `skel_write` of usb/usb-skeleton.c.
use ldd_samples.Prelude.{
  ℕ, ◌+◌, ◌-◌, Bool, true, false, Option, none, some, [], ◌∷◌, ◌++◌, ◌==◌, not, if◌then◌else◌, min,
}
use ldd_samples.Kernel.{Errno, Ret, ret, fail, enomem, enodev, eagain, efault, restartsys}
use ldd_samples.Kernel.Memory.{Mem, CopyFn}
use ldd_samples.Usb.Dev.{Dev, WriteUrb, max_transfer, reported}

-- Whether the URB and its buffer can be allocated, what the fresh buffer holds, and the status of
-- `usb_submit_urb`.
pub record Answers : Type 0 where
  pub alloc_urb : Bool
  pub alloc_buffer : Bool
  pub fresh : Mem
  pub submit : Option Errno

-- `up(&dev->limit_sem)` on the way out by an error.
give_up : Dev → Errno → Dev × Ret
give_up d e = (record d { limit_sem = d.limit_sem + 1 }, fail e)

-- From the submission on: the URB is anchored, and taken off the anchor and its buffer freed if it is
-- refused.
submit_write : (submit : Option Errno) → WriteUrb → Dev → Dev × Ret
unfolding give_up
submit_write none u d =
    (record d { submitted = d.submitted ++ (u ∷ []); buffers = d.buffers + 1 }, ret u.length)
submit_write (some e) u d = give_up d e

module _ (copy_from_user : CopyFn) (k : Answers) where
  -- From the allocation of the URB on.
  with_slot : Dev → Mem → (user_buffer count : ℕ) → Dev × Ret
  unfolding submit_write
  with_slot d user user_buffer count =
      let writesize = min count max_transfer in
      let (buf, left) = copy_from_user k.fresh 0 user user_buffer writesize in
      if not k.alloc_urb
      then give_up d enomem
      else if not k.alloc_buffer
      then give_up d enomem
      else if not (left == 0)
      then give_up d efault
      else if d.disconnected
      then give_up d enodev
      else submit_write k.submit (record { buf = buf; length = writesize }) d

  -- From the test of the errors on.
  check_errors : Option Errno → Dev → Mem → (user_buffer count : ℕ) → Dev × Ret
  unfolding with_slot reported
  check_errors (some e) d user user_buffer count = give_up (record d { errors = none }) (reported e)
  check_errors none d user user_buffer count = with_slot d user user_buffer count

  -- A call that finds no free slot: it sleeps on (`none`), or returns.
  pub no_slot : (nonblock interrupted : Bool) → Dev → Option (Dev × Ret)
  no_slot true interrupted d = some (d, fail eagain)
  no_slot false true d = some (d, fail restartsys)
  no_slot false false d = none

  unfoldable pub write :
      (nonblock interrupted : Bool) → Dev → Mem → (user_buffer count : ℕ) → Option (Dev × Ret)
  unfolding check_errors no_slot
  write nonblock interrupted d user user_buffer count =
      if count == 0
      then some (d, ret 0)
      else if d.limit_sem == 0
      then no_slot nonblock interrupted d
      else some
          (check_errors d.errors (record d { limit_sem = d.limit_sem - 1 }) user user_buffer count)
