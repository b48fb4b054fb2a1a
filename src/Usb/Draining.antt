-- ===== src/Usb/Draining.antt =====
-- What the kills of `skel_disconnect` and `skel_draw_down` of usb/usb-skeleton.c leave: nothing in flight.
use ldd_samples.Prelude.{
  ℕ, ◌-◌, ◌≡◌, refl, ◌∙◌, ap, true, false, Option, none, some, List, [], ◌∷◌, arith, ◌==◌,
}
use ldd_samples.Kernel.{Errno, enoent}
use ldd_samples.Usb.Dev.{
  Dev, WriteUrb, read_callback, write_callback, kill_read, kill_list, kill_writes, complete_writes,
  draw_down, kref_put,
}
use ldd_samples.Usb.Control.{flush, disconnect, suspend, pre_reset, post_reset}
use ldd_samples.Usb.Invariant.{
  IsSound, IsKept, IsKept-then, kill_read-IsKept, kill_writes-IsKept, draw_down-IsKept,
}

kill_list-empty :
    (us : List WriteUrb) (d : Dev) → d.submitted ≡ us → (kill_list us d).submitted ≡ []
unfolding kill_list write_callback
kill_list-empty [] d e = e
kill_list-empty (u ∷ us) d e = kill_list-empty us (write_callback (some enoent) d) (rw e refl)

pub kill_writes-empty : (d : Dev) → (kill_writes d).submitted ≡ []
unfolding kill_writes
kill_writes-empty d = kill_list-empty d.submitted d refl

write_callback-reading :
    (status : Option Errno) (d : Dev) → (write_callback status d).reading ≡ d.reading
unfolding write_callback
write_callback-reading status d = ground arith

kill_list-reading : (us : List WriteUrb) (d : Dev) → (kill_list us d).reading ≡ d.reading
unfolding kill_list
kill_list-reading [] d = refl
kill_list-reading (u ∷ us) d =
    kill_list-reading us (write_callback (some enoent) d) ∙ write_callback-reading (some enoent) d

complete_writes-reading :
    (statuses : List (Option Errno)) (d : Dev) → (complete_writes statuses d).reading ≡ d.reading
unfolding complete_writes
complete_writes-reading [] d = refl
complete_writes-reading (status ∷ rest) d =
    complete_writes-reading rest (write_callback status d) ∙ write_callback-reading status d

kill_writes-reading : (d : Dev) → (kill_writes d).reading ≡ d.reading
unfolding kill_writes
kill_writes-reading d = kill_list-reading d.submitted d

kill_read-errors : (d : Dev) (n : ℕ) → d.reading ≡ some n → (kill_read d).errors ≡ some enoent
unfolding kill_read read_callback
kill_read-errors d n active = ground arith

-- A read that is under way when the device is drawn down ends as an unlinked one.
pub draw_down-errors :
    (waited : List (Option Errno)) (d : Dev) (n : ℕ)
    → d.reading ≡ some n
    → (draw_down waited d).errors ≡ some enoent
unfolding draw_down
draw_down-errors waited d n active =
    kill_read-errors (kill_writes (complete_writes waited d)) n
      (kill_writes-reading (complete_writes waited d) ∙ complete_writes-reading waited d ∙ active)

kill_read-reading : (d : Dev) → (kill_read d).reading ≡ none
unfolding kill_read read_callback
kill_read-reading d = ground arith

kill_read-submitted : (d : Dev) → (kill_read d).submitted ≡ d.submitted
unfolding kill_read read_callback
kill_read-submitted d = ground arith

-- A device that the bus has taken away.
gone : Dev → Dev
gone d = record d { attached = false; disconnected = true }

kill_read-gone : (d : Dev) → kill_read (gone d) ≡ gone (kill_read d)
unfolding kill_read read_callback gone
kill_read-gone d = ground arith

write_callback-gone :
    (status : Option Errno) (d : Dev)
    → write_callback status (gone d) ≡ gone (write_callback status d)
unfolding write_callback gone
write_callback-gone status d = ground arith

kill_list-gone : (us : List WriteUrb) (d : Dev) → kill_list us (gone d) ≡ gone (kill_list us d)
unfolding kill_list
kill_list-gone [] d = refl
kill_list-gone (u ∷ us) d =
    ap (kill_list us) (write_callback-gone (some enoent) d)
    ∙ kill_list-gone us (write_callback (some enoent) d)

kill_writes-gone : (d : Dev) → kill_writes (gone d) ≡ gone (kill_writes d)
unfolding kill_writes gone
kill_writes-gone d = kill_list-gone d.submitted d

kill_all-gone : (d : Dev) → kill_writes (kill_read (gone d)) ≡ gone (kill_writes (kill_read d))
kill_all-gone d = ap kill_writes (kill_read-gone d) ∙ kill_writes-gone (kill_read d)

disconnect-IsKept : (d : Dev) → IsSound d → IsKept d (kill_writes (kill_read d))
disconnect-IsKept d s =
    let one = kill_read-IsKept d s in
    IsKept-then d (kill_read d) _ one (kill_writes-IsKept (kill_read d) one.sound)

-- A disconnect kills what is in flight and puts the reference of the bus.
disconnect-gone : (d : Dev) → disconnect d ≡ kref_put (gone (kill_writes (kill_read d)))
unfolding disconnect gone
disconnect-gone d = ap kref_put (kill_all-gone d)

gone-IsSound :
    (d : Dev) → IsSound d → d.submitted ≡ [] → d.reading ≡ none → IsSound (kref_put (gone d))
unfolding gone kref_put
gone-IsSound d s writes read = ground arith

kill_all-reading : (d : Dev) → (kill_writes (kill_read d)).reading ≡ none
unfolding kill_writes
kill_all-reading d = kill_list-reading (kill_read d).submitted (kill_read d) ∙ kill_read-reading d

pub disconnect-IsSound : (d : Dev) → IsSound d → IsSound (disconnect d)
disconnect-IsSound d s = rw (disconnect-gone d) (
    gone-IsSound (kill_writes (kill_read d)) (disconnect-IsKept d s).sound
      (kill_writes-empty (kill_read d)) (kill_all-reading d))

-- What a disconnect does to what the kernel counts.
pub disconnect-counts :
    (d : Dev)
    → IsSound d
    → ((disconnect d).kref ≡ d.kref - 1)
      × ((disconnect d).deleted ≡ (d.kref == 1))
      × ((disconnect d).attached ≡ false)
      × ((disconnect d).disconnected ≡ true)
      × ((disconnect d).bulk_in_size ≡ d.bulk_in_size)
unfolding gone kref_put
disconnect-counts d s =
    let kept = (disconnect-IsKept d s).same in
    rw (disconnect-gone d)
      (ap (λ n. n - 1) kept.kref, ap (λ n. n == 1) kept.kref, refl, refl, kept.size)

pub draw_down-empty :
    (waited : List (Option Errno)) (d : Dev)
    → ((draw_down waited d).submitted ≡ []) × ((draw_down waited d).reading ≡ none)
unfolding draw_down
draw_down-empty waited d = (
  kill_read-submitted (kill_writes (complete_writes waited d))
      ∙ kill_writes-empty (complete_writes waited d),
  kill_read-reading (kill_writes (complete_writes waited d)),
)

pub flush-IsKept :
    (waited : List (Option Errno)) (d : Dev) → IsSound d → IsKept d (flush waited d).0
unfolding flush
flush-IsKept waited d s =
    let kept = draw_down-IsKept waited d s in ground (arith, kept.sound, kept.same)

pub suspend-IsKept :
    (waited : List (Option Errno)) (d : Dev) → IsSound d → IsKept d (suspend waited d).0
unfolding suspend
suspend-IsKept waited d s = let kept = draw_down-IsKept waited d s in ground (arith, kept)

pub reset-IsKept :
    (waited : List (Option Errno)) (d : Dev)
    → IsSound d
    → IsKept d (post_reset (pre_reset waited d))
unfolding pre_reset post_reset
reset-IsKept waited d s = let kept = draw_down-IsKept waited d s in ground arith
