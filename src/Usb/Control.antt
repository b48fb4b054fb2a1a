-- ===== src/Usb/Control.antt =====
-- `skel_open`, `skel_release`, `skel_flush`, `skel_disconnect`, `skel_suspend`, `skel_resume`,
-- `skel_pre_reset` and `skel_post_reset` of usb/usb-skeleton.c.
use ldd_samples.Prelude.{◌+◌, Bool, true, false, Option, none, some, List, not, if◌then◌else◌}
use ldd_samples.Kernel.{Errno, Ret, ret, fail, enodev, epipe}
use ldd_samples.Usb.Dev.{Dev, reported, draw_down, kill_read, kill_writes, kref_put}

-- `found` says that the minor has an interface, `autopm` is the status of
-- `usb_autopm_get_interface`.
opened : (autopm : Option Errno) → Dev → Dev × Ret
opened (some e) d = (d, fail e)
opened none d = (record d { kref = d.kref + 1 }, ret 0)

unfoldable pub open_dev : (found : Bool) → (autopm : Option Errno) → Dev → Dev × Ret
unfolding opened
open_dev found autopm d =
    if not found
    then (d, fail enodev)
    else if not d.attached
    then (d, fail enodev)
    else opened autopm d

unfoldable pub release : Dev → Dev × Ret
unfolding kref_put
release d = (kref_put d, ret 0)

-- The errors that a flush reads out.
flushed : Option Errno → Ret
unfolding reported
flushed none = ret 0
flushed (some e) = fail (reported e)

unfoldable pub flush : List (Option Errno) → Dev → Dev × Ret
unfolding draw_down flushed
flush waited d = let d' = draw_down waited d in (record d' { errors = none }, flushed d'.errors)

unfoldable pub disconnect : Dev → Dev
unfolding kill_read kill_writes kref_put
disconnect d =
    kref_put (kill_writes (kill_read (record d { attached = false; disconnected = true })))

unfoldable pub suspend : List (Option Errno) → Dev → Dev × Ret
unfolding draw_down
suspend waited d = if d.attached then (draw_down waited d, ret 0) else (d, ret 0)

pub resume : Dev → Dev × Ret
resume d = (d, ret 0)

-- `io_mutex` is held from the first of the two to the second.
unfoldable pub pre_reset : List (Option Errno) → Dev → Dev
unfolding draw_down
pre_reset waited d = draw_down waited d

unfoldable pub post_reset : Dev → Dev
post_reset d = record d { errors = some epipe }
