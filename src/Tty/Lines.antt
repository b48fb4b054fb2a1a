-- ===== src/Tty/Lines.antt =====
-- The modem lines and the settings of a port: `tiny_tiocmget`, `tiny_tiocmset` and
-- `tiny_set_termios` of serial/tiny_tty.c. The MCR, the MSR and the flags are bit patterns.
use ldd_samples.Prelude.{
  ℕ, ◌+◌, ◌-◌, ◌/◌, ◌%◌, ◌≡◌, ◌∙◌, refl, Bool, true, false, Option, none, some, arith, ◌==◌, ◌&&◌,
  ◌||◌, if◌then◌else◌,
}
use ldd_samples.Tty.{Tiny}

-- Whether the bit of value `b` is set in `x`; `x` with it set, and with it cleared.
abbrev pub bit : (b x : ℕ) → Bool
bit b x = x / b % 2 == 1

abbrev pub set_bit : (b x : ℕ) → ℕ
set_bit b x = if bit b x then x else x + b

abbrev pub clear_bit : (b x : ℕ) → ℕ
clear_bit b x = if bit b x then x - b else x

-- `TIOCM_DTR`, `TIOCM_RTS`, `TIOCM_CTS`, `TIOCM_CAR`, `TIOCM_RNG`, `TIOCM_DSR` and `TIOCM_LOOP`
abbrev pub tiocm_dtr : ℕ
tiocm_dtr = 0x2

abbrev pub tiocm_rts : ℕ
tiocm_rts = 0x4

abbrev pub tiocm_cts : ℕ
tiocm_cts = 0x20

abbrev pub tiocm_cd : ℕ
tiocm_cd = 0x40

abbrev pub tiocm_rng : ℕ
tiocm_rng = 0x80

abbrev pub tiocm_dsr : ℕ
tiocm_dsr = 0x100

abbrev pub tiocm_loop : ℕ
tiocm_loop = 0x8000

-- The bits of the fake UART: `MCR_DTR`, `MCR_RTS`, `MCR_LOOP`, `MSR_CTS`, `MSR_CD`, `MSR_RI` and
-- `MSR_DSR`.
abbrev pub mcr_dtr : ℕ
mcr_dtr = 0x1

abbrev pub mcr_rts : ℕ
mcr_rts = 0x2

abbrev pub mcr_loop : ℕ
mcr_loop = 0x4

abbrev pub msr_cts : ℕ
msr_cts = 0x8

abbrev pub msr_cd : ℕ
msr_cd = 0x10

abbrev pub msr_ri : ℕ
msr_ri = 0x20

abbrev pub msr_dsr : ℕ
msr_dsr = 0x40

pub tiocmget : Tiny → ℕ
tiocmget t =
    (if bit mcr_dtr t.mcr then tiocm_dtr else 0)
    + (if bit mcr_rts t.mcr then tiocm_rts else 0)
    + (if bit mcr_loop t.mcr then tiocm_loop else 0)
    + (if bit msr_cts t.msr then tiocm_cts else 0)
    + (if bit msr_cd t.msr then tiocm_cd else 0)
    + (if bit msr_ri t.msr then tiocm_rng else 0)
    + (if bit msr_dsr t.msr then tiocm_dsr else 0)

pub tiocmset : (set clear : ℕ) → Tiny → Tiny
tiocmset set clear t =
    let a = if bit tiocm_rts set then set_bit mcr_rts t.mcr else t.mcr in
    let b = if bit tiocm_dtr set then set_bit mcr_rts a else a in
    let c = if bit tiocm_rts clear then clear_bit mcr_rts b else b in
    record t { mcr = if bit tiocm_dtr clear then clear_bit mcr_rts c else c }

rts_kept :
    (x : ℕ)
    → (bit mcr_rts (set_bit mcr_rts x) ≡ true)
      × (bit mcr_rts (clear_bit mcr_rts x) ≡ false)
      × (bit mcr_dtr (set_bit mcr_rts x) ≡ bit mcr_dtr x)
      × (bit mcr_dtr (clear_bit mcr_rts x) ≡ bit mcr_dtr x)
rts_kept x = ground arith

-- One request, which may set or clear RTS.
abbrev raised : Bool → ℕ → ℕ
raised b x = if b then set_bit mcr_rts x else x

abbrev dropped : Bool → ℕ → ℕ
dropped b x = if b then clear_bit mcr_rts x else x

raised_bits :
    (b : Bool) (x : ℕ)
    → (bit mcr_dtr (raised b x) ≡ bit mcr_dtr x)
      × (bit mcr_rts (raised b x) ≡ (if b then true else bit mcr_rts x))
raised_bits true x = ((rts_kept x).2, (rts_kept x).0)
raised_bits false x = (refl, refl)

dropped_bits :
    (b : Bool) (x : ℕ)
    → (bit mcr_dtr (dropped b x) ≡ bit mcr_dtr x)
      × (bit mcr_rts (dropped b x) ≡ (if b then false else bit mcr_rts x))
dropped_bits true x = ((rts_kept x).3, (rts_kept x).1)
dropped_bits false x = (refl, refl)

all_bits :
    (a b c d : Bool) (x : ℕ)
    → (bit mcr_dtr (dropped d (dropped c (raised b (raised a x)))) ≡ bit mcr_dtr x)
      × (bit mcr_rts (dropped d (dropped c (raised b (raised a x))))
          ≡ (if c || d then false else if a || b then true else bit mcr_rts x))
all_bits a b c d x =
    let one = raised_bits a x in
    let two = raised_bits b (raised a x) in
    let three = dropped_bits c (raised b (raised a x)) in
    let four = dropped_bits d (dropped c (raised b (raised a x))) in
    (
      four.0 ∙ three.0 ∙ two.0 ∙ one.0,
      rw (four.1, three.1, two.1, one.1) (choose a b c d (bit mcr_rts x)),
    )
  where
    choose :
        (a b c d v : Bool)
        → (if d then false else if c then false else if b then true else if a then true else v)
          ≡ (if c || d then false else if a || b then true else v)
    choose a b true true v = refl
    choose a b true false v = refl
    choose a b false true v = refl
    choose true true false false v = refl
    choose true false false false v = refl
    choose false true false false v = refl
    choose false false false false v = refl

get_dtr : (t : Tiny) → bit tiocm_dtr (tiocmget t) ≡ bit mcr_dtr t.mcr
unfolding tiocmget
get_dtr t = ground arith

get_rts : (t : Tiny) → bit tiocm_rts (tiocmget t) ≡ bit mcr_rts t.mcr
unfolding tiocmget
get_rts t = ground arith

-- Whatever is asked to be set or cleared, DTR is reported as before; RTS is cleared by a request to
-- clear RTS or DTR, else set by a request to set one of them, else as before.
pub tiocmset-tiocmget :
    (set clear : ℕ) (t : Tiny)
    → (bit tiocm_dtr (tiocmget (tiocmset set clear t)) ≡ bit tiocm_dtr (tiocmget t))
      × (bit tiocm_rts (tiocmget (tiocmset set clear t)) ≡ (
          if bit tiocm_rts clear || bit tiocm_dtr clear
          then false
          else if bit tiocm_rts set || bit tiocm_dtr set
          then true
          else bit tiocm_rts (tiocmget t)))
unfolding tiocmset
tiocmset-tiocmget set clear t =
    let (dtr, rts) =
      all_bits (bit tiocm_rts set) (bit tiocm_dtr set) (bit tiocm_rts clear) (bit tiocm_dtr clear)
        t.mcr in
    rw (get_dtr t, get_rts t, get_dtr (tiocmset set clear t), get_rts (tiocmset set clear t))
      (dtr, rts)

-- What `tiny_set_termios` reports: data bits, parity (0 for none, 1 for odd, 2 for even), stop bits,
-- RTS/CTS, inbound and outbound XON/XOFF.
pub record Report : Type 0 where
  pub data_bits : ℕ
  pub parity : ℕ
  pub stop_bits : ℕ
  pub rtscts : Bool
  pub ixoff : Bool
  pub ixon : Bool

-- `c_cflag` and `c_iflag` of `struct ktermios`
pub record Termios : Type 0 where
  pub c_cflag : ℕ
  pub c_iflag : ℕ

-- `IGNBRK | BRKINT | IGNPAR | PARMRK | INPCK` are the low five bits.
abbrev pub relevant_iflag : ℕ → ℕ
relevant_iflag iflag = iflag % 32

-- The masks CSIZE, CSTOPB, PARENB, PARODD, CRTSCTS, IXON and IXOFF are 0x30, 0x40, 0x100, 0x200,
-- 2 ^ 31, 0x400 and 0x1000.
unfoldable pub report : Termios → Report
report t = record {
  data_bits = 5 + t.c_cflag / 0x10 % 4;
  parity = if bit 0x100 t.c_cflag then (if bit 0x200 t.c_cflag then 1 else 2) else 0;
  stop_bits = if bit 0x40 t.c_cflag then 2 else 1;
  rtscts = bit 0x8000_0000 t.c_cflag;
  ixoff = bit 0x1000 t.c_iflag;
  ixon = bit 0x400 t.c_iflag;
}

-- `none` where there is nothing to change.
pub set_termios : Termios → (old : Option Termios) → Option Report
unfolding report
set_termios t none = some (report t)
set_termios t (some old) =
    if t.c_cflag == old.c_cflag && relevant_iflag t.c_iflag == relevant_iflag old.c_iflag
    then none
    else some (report t)

-- A request that changes nothing but the software flow control is not carried out: where the
-- control flags are the old ones and the input flags differ in that IXON is new, nothing is reported,
-- though the reports of the new and the old settings differ in it.
pub set_termios-flow_ignored :
    (t old : Termios)
    → t.c_cflag ≡ old.c_cflag
    → t.c_iflag ≡ old.c_iflag + 0x400
    → bit 0x400 old.c_iflag ≡ false
    → (set_termios t (some old) ≡ none) × ((report t).ixon ≡ true) × ((report old).ixon ≡ false)
unfolding set_termios
set_termios-flow_ignored t old same flow off = ground arith
