-- ===== src/Serial/Agreement.antt =====
-- The settings that the two serial samples, serial/tiny_serial.c and serial/tiny_tty.c, report.
use ldd_samples.Prelude.{◌≡◌, refl, arith}
use ldd_samples.Serial.{set_termios}
use ldd_samples.Tty.Lines.{Termios, report}

-- The two drivers report the same settings for the same control flags.
pub set_termios-report :
    (t : Termios)
    → let s = set_termios t.c_cflag in
      (s.data_bits ≡ (report t).data_bits)
      × (s.parity ≡ (report t).parity)
      × (s.stop_bits ≡ (report t).stop_bits)
      × (s.rtscts ≡ (report t).rtscts)
unfolding set_termios report
set_termios-report t = (ground arith, refl, refl, refl)
