-- ===== src/Usb/Reports.antt =====
-- How usb/usb-skeleton.c reports an error, a reset and a suspend to its callers.
use ldd_samples.Prelude.{
  ℕ, ◌≡◌, ◌≢◌, refl, ◌∙◌, Bool, true, false, Option, none, some, List, [], ◌∷◌, arith,
}
use ldd_samples.Kernel.{Errno, fail, epipe, eio, enoent}
use ldd_samples.Kernel.Memory.{Mem, CopyFn}
use ldd_samples.Usb.Dev.{Dev, reported, writes_in_flight, draw_down}
use ldd_samples.Usb.Read.{pass, after_errors, Turn, returned, after_pass, round, read_rounds, read}
use ldd_samples.Usb.Write.{Answers, write}
use ldd_samples.Usb.Control.{suspend, pre_reset, post_reset}
use ldd_samples.Usb.Invariant.{IsSound, draw_down-IsKept}
use ldd_samples.Usb.Draining.{draw_down-empty, draw_down-errors}

read-reports :
    (copy : CopyFn) (nonblock : Bool) (t : Turn) (rest : List Turn) (d : Dev) (user : Mem)
    (buffer count : ℕ) (e : Errno)
    → count ≢ 0
    → d.disconnected ≡ false
    → d.ongoing_read ≡ false
    → d.errors ≡ some e
    → read copy nonblock true (t ∷ rest) d user buffer count
      ≡ returned (record d { errors = none }) user (fail (reported e))
unfolding read read_rounds round pass after_errors after_pass
read-reports copy nonblock t rest d user buffer count e some_bytes here idle error = ground arith

write-reports :
    (copy : CopyFn) (k : Answers) (nonblock signal : Bool) (d : Dev) (user : Mem) (buffer count : ℕ)
    (e : Errno)
    → count ≢ 0
    → d.limit_sem ≢ 0
    → d.errors ≡ some e
    → write copy k nonblock signal d user buffer count
      ≡ some (record d { errors = none }, fail (reported e))
unfolding write
write-reports copy k nonblock signal d user buffer count e some_bytes free error = ground arith

drained-limit : (d : Dev) → IsSound d → d.submitted ≡ [] → d.limit_sem ≡ writes_in_flight
drained-limit d s none_left = ground (arith, s.slots)

drained-idle : (d : Dev) → IsSound d → d.reading ≡ none → d.ongoing_read ≡ false
drained-idle d s none_left = ground (arith, s.ongoing)

-- After a reset of a sound device that is there, whatever was in flight before: all write slots are free,
-- nothing is in flight, and the next read as well as the next write of a byte or more, blocking or
-- not, returns -EPIPE, takes the error away and changes nothing else.
pub reset-reported :
    (to_user from_user : CopyFn) (k : Answers) (nonblock signal : Bool)
    (waited : List (Option Errno)) (t : Turn) (rest : List Turn) (d : Dev) (user : Mem)
    (buffer count : ℕ)
    → IsSound d
    → d.disconnected ≡ false
    → count ≢ 0
    → let d' = post_reset (pre_reset waited d) in
      (d'.limit_sem ≡ writes_in_flight)
      × (d'.submitted ≡ [])
      × (d'.reading ≡ none)
      × (read to_user nonblock true (t ∷ rest) d' user buffer count
          ≡ returned (record d' { errors = none }) user (fail epipe))
      × (write from_user k nonblock signal d' user buffer count
          ≡ some (record d' { errors = none }, fail epipe))
unfolding pre_reset post_reset reported
reset-reported to_user from_user k nonblock signal waited t rest d user buffer count s here
      some_bytes =
    let e : Dev = draw_down waited d in
    let d' : Dev = post_reset e in
    let kept = draw_down-IsKept waited d s in
    let empty = draw_down-empty waited d in
    let limit : e.limit_sem ≡ writes_in_flight = drained-limit e kept.sound empty.0 in
    (
      limit,
      empty.0,
      empty.1,
      read-reports to_user nonblock t rest d' user buffer count epipe some_bytes
          (kept.same.disconnected ∙ here) (drained-idle e kept.sound empty.1) refl,
      write-reports from_user k nonblock signal d' user buffer count epipe some_bytes
          (rw limit (omega arith)) refl,
    )

suspend-bound :
    (waited : List (Option Errno)) (d : Dev)
    → d.attached ≡ true
    → (suspend waited d).0 ≡ draw_down waited d
unfolding suspend
suspend-bound waited d bound = ground (arith, bound)

-- A suspend of a sound device that is there, while a read is under way: the next read of a byte or more
-- returns -EIO, takes the error away and changes nothing else.
pub suspend-reported :
    (copy : CopyFn) (nonblock : Bool) (waited : List (Option Errno)) (t : Turn) (rest : List Turn)
    (d : Dev) (user : Mem) (buffer count n : ℕ)
    → IsSound d
    → d.attached ≡ true
    → d.disconnected ≡ false
    → d.reading ≡ some n
    → count ≢ 0
    → let d' = (suspend waited d).0 in
      read copy nonblock true (t ∷ rest) d' user buffer count
      ≡ returned (record d' { errors = none }) user (fail eio)
unfolding reported
suspend-reported copy nonblock waited t rest d user buffer count n s bound here active some_bytes =
    let kept = draw_down-IsKept waited d s in
    rw (suspend-bound waited d bound) (
      read-reports copy nonblock t rest (draw_down waited d) user buffer count enoent some_bytes
        (kept.same.disconnected ∙ here)
        (drained-idle (draw_down waited d) kept.sound (draw_down-empty waited d).1)
        (draw_down-errors waited d n active))
