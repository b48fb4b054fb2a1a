-- ===== src/Tty/Port.antt =====
-- Opening and closing a port of serial/tiny_tty.c, and the timer in between.
use ldd_samples.Prelude.{
  ℕ, ◌+◌, ◌-◌, ◌<◌, ◌≡◌, ◌≢◌, Bool, true, false, Option, none, some, List, [], ◌∷◌, arith, ltb,
  ◌==◌, if◌then◌else◌,
}
use ldd_samples.Kernel.{Ret, ret, fail, einval}
use ldd_samples.Tty.{
  Tiny, Tty, PortOps, timer, activate, shutdown, open_tty, close, write, write_room,
}

-- What the kernel's functions do: an open counts the port up and activates it if it was not open,
-- with whatever status the call ends; the close of an open port counts it down and shuts it down if
-- it was the last one.
pub record IsPort (ops : PortOps) : Type 0 where
  pub opened :
      (act : Tiny → Tiny × Ret) (t : Tiny)
      → (ops.port_open act t).0
        ≡ record (if t.count == 0 then (act t).0 else t) { count = t.count + 1 }
  pub closed :
      (down : Tiny → Tiny) (t : Tiny)
      → 0 < t.count
      → ops.port_close down t ≡ record (if t.count == 1 then down t else t) { count = t.count - 1 }

abbrev pub is_some : Option ℕ → Bool
is_some none = false
is_some (some x) = true

-- The timer runs exactly while the port is open.
abbrev pub IsArmed : Tiny → Type 0
IsArmed t = is_some t.timer ≡ ltb 0 t.count

-- What happens to a port.
pub data Op : Type 0 where
  opening : (jiffies : ℕ) → Op
  closing : Op
  expiring : (jiffies : ℕ) → Op

module _ (ops : PortOps) (hz : ℕ) where
  -- The tty layer closes what is open, and a timer expires that is armed.
  pub perform : Tty → Op → Tty
  perform t (opening jiffies) = (open_tty ops hz jiffies t).0
  perform t closing = if t.tiny.count == 0 then t else close ops t
  perform t (expiring jiffies) =
      if is_some t.tiny.timer then record t { tiny = timer hz jiffies t.tiny } else t

  pub perform_all : Tty → List Op → Tty
  perform_all t [] = t
  perform_all t (op ∷ rest) = perform_all (perform t op) rest

module _ {ops : PortOps} (is_port : IsPort ops) (hz : ℕ) where
  perform-IsArmed : (t : Tty) (op : Op) → IsArmed t.tiny → IsArmed (perform ops hz t op).tiny
  unfolding perform open_tty close timer
  perform-IsArmed t (opening jiffies) armed =
      ground (arith, is_port.opened (activate hz jiffies) t.tiny)
  perform-IsArmed t closing armed = ground (arith, is_port.closed shutdown t.tiny)
  perform-IsArmed t (expiring jiffies) armed = ground arith

  -- Through any sequence of opens, closes and expiries, whatever status the opens end with, the
  -- timer of a port runs exactly while the port counts as open, if it does so at first.
  pub perform_all-IsArmed :
      (rest : List Op) (t : Tty) → IsArmed t.tiny → IsArmed (perform_all ops hz t rest).tiny
  unfolding perform_all
  perform_all-IsArmed [] t armed = armed
  perform_all-IsArmed (op ∷ rest) t armed =
      perform_all-IsArmed rest (perform ops hz t op) (perform-IsArmed t op armed)

  -- An open that fails leaves the tty without its port: the close that follows does nothing, the
  -- port counts one more open than before, and its timer runs on if it was armed as it should be.
  pub failed_open-leaks :
      (jiffies : ℕ) (t : Tty)
      → (open_tty ops hz jiffies t).1 ≢ ret 0
      → IsArmed t.tiny
      → ((close ops (open_tty ops hz jiffies t).0).tiny.count ≡ t.tiny.count + 1)
        × (is_some (close ops (open_tty ops hz jiffies t).0).tiny.timer ≡ true)
  unfolding open_tty close
  failed_open-leaks jiffies t failed armed =
      ground (arith, is_port.opened (activate hz jiffies) t.tiny)

  -- After an open that succeeds a write takes all its bytes and there is room for 255; the close of
  -- that only open makes both return EINVAL.
  pub open-write-close :
      (jiffies n : ℕ) (t : Tty)
      → t.tiny.count ≡ 0
      → (open_tty ops hz jiffies t).1 ≡ ret 0
      → (write (open_tty ops hz jiffies t).0 n ≡ ret n)
        × (write_room (open_tty ops hz jiffies t).0 ≡ ret 255)
        × (write (close ops (open_tty ops hz jiffies t).0) n ≡ fail einval)
        × (write_room (close ops (open_tty ops hz jiffies t).0) ≡ fail einval)
  unfolding open_tty close write write_room
  open-write-close jiffies n t start opened = ground (
    arith,
    is_port.opened (activate hz jiffies) t.tiny,
    is_port.closed shutdown (ops.port_open (activate hz jiffies) t.tiny).0,
  )
