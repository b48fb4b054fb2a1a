-- ===== src/Tty/Tests.antt =====
-- Runs of serial/tiny_tty.c at concrete inputs.
use ldd_samples.Prelude.{
  ℕ, ◌+◌, ◌-◌, ◌≡◌, refl, true, false, none, some, [], ◌∷◌, ◌==◌, if◌then◌else◌,
}
use ldd_samples.Kernel.{Ret, ret, fail, einval}
use ldd_samples.Tty.{Icount, Serial, Tty, PortOps, open_tty, close, write, write_room}
use ldd_samples.Tty.Port.{
  IsPort, IsArmed, opening, closing, expiring, perform_all, perform_all-IsArmed, open-write-close,
}
use ldd_samples.Tty.Lines.{Termios, report, set_termios, set_termios-flow_ignored}
use ldd_samples.Tty.Ioctl.{Copies, Wake}

abbrev counts : Icount
counts = record {
  cts = 0;
  dsr = 0;
  rng = 0;
  dcd = 0;
  rx = 0;
  tx = 0;
  frame = 0;
  overrun = 0;
  parity = 0;
  brk = 0;
  buf_overrun = 0;
}

abbrev info : Serial
info = record {
  type_ = 0;
  line = 0;
  port = 0;
  irq = 0;
  xmit_fifo_size = 0;
  baud_base = 0;
  custom_divisor = 0;
  hub6 = 0;
  io_type = 0;
}

abbrev idle : Tty
idle = record {
  tiny = record {
    count = 0;
    timer = none;
    received = [];
    msr = 0;
    mcr = 1;
    serial = info;
    icount = counts;
  };
  driver_data = false;
}

-- Ports whose opens end with a status.
abbrev ports : Ret → PortOps
ports status = record {
  port_open =
      λ act t. (record (if t.count == 0 then (act t).0 else t) { count = t.count + 1 }, status);
  port_close = λ down t. record (if t.count == 1 then down t else t) { count = t.count - 1 };
}

ports-IsPort : (status : Ret) → IsPort (ports status)
ports-IsPort status = record { opened = λ act t. refl; closed = λ down t opened. refl }

perform_all-IsArmed_example :
    IsArmed
      (perform_all
        (ports (ret 0))
        100
        idle
        (opening 5 ∷ expiring 205 ∷ opening 300 ∷ closing ∷ [])).tiny
perform_all-IsArmed_example =
    perform_all-IsArmed (ports-IsPort (ret 0)) 100
      (opening 5 ∷ expiring 205 ∷ opening 300 ∷ closing ∷ []) idle refl

open-write-close_example :
    (write (open_tty (ports (ret 0)) 100 7 idle).0 12 ≡ ret 12)
    × (write_room (open_tty (ports (ret 0)) 100 7 idle).0 ≡ ret 255)
    × (write (close (ports (ret 0)) (open_tty (ports (ret 0)) 100 7 idle).0) 12 ≡ fail einval)
    × (write_room (close (ports (ret 0)) (open_tty (ports (ret 0)) 100 7 idle).0) ≡ fail einval)
unfolding open_tty
open-write-close_example = open-write-close (ports-IsPort (ret 0)) 100 7 12 idle refl refl

abbrev old_flow : Termios
old_flow = record { c_cflag = 0xbd; c_iflag = 0x100 }

abbrev new_flow : Termios
new_flow = record { c_cflag = 0xbd; c_iflag = 0x500 }

set_termios-flow_ignored_example :
    (set_termios new_flow (some old_flow) ≡ none)
    × ((report new_flow).ixon ≡ true)
    × ((report old_flow).ixon ≡ false)
set_termios-flow_ignored_example = set_termios-flow_ignored new_flow old_flow refl refl refl

abbrev copies : Copies
copies = record { copy_serial = λ m a s. (m, true); copy_icount = λ m a c. (m, true) }

abbrev wake : (rng cts : ℕ) → Wake
wake rng cts = record { signal_pending = false; cnow = record counts { rng = rng; cts = cts } }
