-- ===== src/Usb/Dev.antt =====
-- `struct usb_skel` of usb/usb-skeleton.c, `skel_read_bulk_callback`, `skel_write_bulk_callback`,
-- `skel_draw_down` and the reference count. A status is `none` for 0, or a negated error code.
use ldd_samples.Prelude.{ℕ, ◌+◌, ◌-◌, Bool, false, Option, none, some, List, [], ◌∷◌, ◌==◌}
use ldd_samples.Kernel.{Errno, epipe, eio, enoent}
use ldd_samples.Kernel.Memory.{Mem, memcpy}

-- `#define MAX_TRANSFER (PAGE_SIZE - 512)` and `#define WRITES_IN_FLIGHT 8`
abbrev pub max_transfer : ℕ
max_transfer = 4096 - 512

abbrev pub writes_in_flight : ℕ
writes_in_flight = 8

-- A write that the USB core has: its buffer and its length.
pub record WriteUrb : Type 0 where
  pub buf : Mem
  pub length : ℕ

-- `struct usb_skel`. `submitted` is the anchor, with the oldest URB first; `reading` is the length that the
-- active read URB asks for; `buffers` counts the coherent buffers that are allocated. `attached` says
-- that the interface points to the device, `deleted` that `skel_delete` has run.
pub record Dev : Type 0 where
  pub limit_sem : ℕ
  pub submitted : List WriteUrb
  pub buffers : ℕ
  pub reading : Option ℕ
  pub bulk_in_buffer : Mem
  pub bulk_in_size : ℕ
  pub bulk_in_filled : ℕ
  pub bulk_in_copied : ℕ
  pub errors : Option Errno
  pub ongoing_read : Bool
  pub disconnected : Bool
  pub attached : Bool
  pub kref : ℕ
  pub deleted : Bool

-- What a caller is told of an error: a reset as it is, any other as EIO.
unfoldable pub reported : Errno → Errno
reported epipe = epipe
reported e = eio

-- `skel_read_bulk_callback`, with the bytes that the device sent.
unfoldable pub read_callback : (status : Option Errno) → (actual : ℕ) → (packet : Mem) → Dev → Dev
read_callback none actual packet d = record d {
  reading = none;
  bulk_in_buffer = memcpy d.bulk_in_buffer 0 packet 0 actual;
  bulk_in_filled = actual;
  ongoing_read = false;
}
read_callback (some e) actual packet d = record d {
  reading = none;
  errors = some e;
  ongoing_read = false;
}

after_status : Option Errno → Option Errno → Option Errno
after_status none errors = errors
after_status (some e) errors = some e

-- `skel_write_bulk_callback` for the oldest URB.
write_done : (status : Option Errno) → List WriteUrb → Dev → Dev
unfolding after_status
write_done status [] d = d
write_done status (u ∷ rest) d = record d {
  submitted = rest;
  buffers = d.buffers - 1;
  limit_sem = d.limit_sem + 1;
  errors = after_status status d.errors;
}

unfoldable pub write_callback : (status : Option Errno) → Dev → Dev
unfolding write_done
write_callback status d = write_done status d.submitted d

-- `usb_kill_urb` of the read URB, and `usb_kill_anchored_urbs`: the callbacks run with -ENOENT.
kill_reading : Option ℕ → Dev → Dev
unfolding read_callback
kill_reading none d = d
kill_reading (some n) d = read_callback (some enoent) 0 d.bulk_in_buffer d

unfoldable pub kill_read : Dev → Dev
unfolding kill_reading
kill_read d = kill_reading d.reading d

unfoldable pub kill_list : List WriteUrb → Dev → Dev
unfolding write_callback
kill_list [] d = d
kill_list (u ∷ rest) d = kill_list rest (write_callback (some enoent) d)

unfoldable pub kill_writes : Dev → Dev
unfolding kill_list
kill_writes d = kill_list d.submitted d

-- The writes that complete while `usb_wait_anchor_empty_timeout` waits, by their statuses.
unfoldable pub complete_writes : List (Option Errno) → Dev → Dev
unfolding write_callback
complete_writes [] d = d
complete_writes (status ∷ rest) d = complete_writes rest (write_callback status d)

-- `skel_draw_down`: nothing is left to be killed where the wait saw the anchor empty.
unfoldable pub draw_down : List (Option Errno) → Dev → Dev
unfolding complete_writes kill_writes kill_read
draw_down waited d = kill_read (kill_writes (complete_writes waited d))

-- `kref_put`: at 0 `skel_delete` runs.
unfoldable pub kref_put : Dev → Dev
kref_put d = record d { kref = d.kref - 1; deleted = d.kref == 1 }
