-- ===== src/Tty/Ioctl.antt =====
-- `tiny_ioctl` of serial/tiny_tty.c. The structures go to the caller by a copy that is a parameter:
-- the caller's memory, an address and the structure, to the memory and whether all was copied.
use ldd_samples.Prelude.{
  ℕ, ◌+◌, ◌*◌, ◌≡◌, ◌⊎◌, refl, Bool, true, false, Option, none, some, List, [], ◌∷◌, ◌++◌, arith,
  ◌^◌, ◌==◌, ◌&&◌, ◌||◌, not, if◌then◌else◌,
}
use ldd_samples.Kernel.{Ret, ret, fail, efault, eio, restartsys, noioctlcmd}
use ldd_samples.Kernel.Memory.{Mem}
use ldd_samples.Tty.{Tiny, Icount, Serial}
use ldd_samples.Tty.Lines.{bit, tiocm_cts, tiocm_cd, tiocm_rng, tiocm_dsr}

-- `TIOCGSERIAL`, `TIOCMIWAIT` and `TIOCGICOUNT`
abbrev pub tiocgserial : ℕ
tiocgserial = 0x541e

abbrev pub tiocmiwait : ℕ
tiocmiwait = 0x545c

abbrev pub tiocgicount : ℕ
tiocgicount = 0x545d

-- What goes to the caller for `TIOCGSERIAL`; the fields that are not named stay 0.
pub record SerialOut : Type 0 where
  pub info : Serial
  pub flags : ℕ
  pub close_delay : ℕ
  pub closing_wait : ℕ

pub record Copies : Type 0 where
  pub copy_serial : Mem → ℕ → SerialOut → Mem × Bool
  pub copy_icount : Mem → ℕ → Icount → Mem × Bool

module _ (copies : Copies) where
  -- `flags` is `ASYNC_SKIP_TEST | ASYNC_AUTO_IRQ`.
  pub get_serial : (hz : ℕ) → Tiny → Mem → (arg : ℕ) → Mem × Ret
  get_serial hz t user arg =
      let out : SerialOut = record {
        info = t.serial;
        flags = 2 ^ 6 + 2 ^ 7;
        close_delay = 5 * hz;
        closing_wait = 30 * hz;
      } in
      let (user', whole) = copies.copy_serial user arg out in
      if arg == 0
      then (user, fail efault)
      else if whole
      then (user', ret 0)
      else (user', fail efault)

  pub get_icount : Tiny → Mem → (arg : ℕ) → Mem × Ret
  get_icount t user arg =
      let (user', whole) = copies.copy_icount user arg t.icount in
      if whole then (user', ret 0) else (user', fail efault)

-- Whether none of the four lines has changed; whether one has that the argument asks for.
unfoldable pub unchanged : (cprev cnow : Icount) → Bool
unchanged cprev cnow =
    (cnow.rng == cprev.rng && cnow.dsr == cprev.dsr)
    && (cnow.dcd == cprev.dcd && cnow.cts == cprev.cts)

unfoldable pub asked : (arg : ℕ) → (cprev cnow : Icount) → Bool
asked arg cprev cnow =
    (bit tiocm_rng arg && not (cnow.rng == cprev.rng))
    || ((bit tiocm_dsr arg && not (cnow.dsr == cprev.dsr))
        || ((bit tiocm_cd arg && not (cnow.dcd == cprev.dcd))
            || (bit tiocm_cts arg && not (cnow.cts == cprev.cts))))

-- What a sleeper finds when it wakes up.
pub record Wake : Type 0 where
  pub signal_pending : Bool
  pub cnow : Icount

-- The loop of `TIOCMIWAIT` over its wake-ups; `none` while it sleeps on.
pub wait_modem : (arg : ℕ) → (cprev : Icount) → List Wake → Option Ret
unfolding unchanged asked
wait_modem arg cprev [] = none
wait_modem arg cprev (w ∷ rest) =
    let later = wait_modem arg w.cnow rest in
    if w.signal_pending
    then some (fail restartsys)
    else if unchanged cprev w.cnow
    then some (fail eio)
    else if asked arg cprev w.cnow
    then some (ret 0)
    else later

pub ioctl : Copies → (hz : ℕ) → Tiny → Mem → (cmd arg : ℕ) → List Wake → Option (Mem × Ret)
ioctl copies hz t user cmd arg wakes =
    if cmd == tiocgserial
    then some (get_serial copies hz t user arg)
    else if cmd == tiocmiwait
    then (elim (wait_modem arg t.icount wakes) [ none ↦ none | some r ↦ some (user, r) ])
    else if cmd == tiocgicount
    then some (get_icount copies t user arg)
    else some (user, fail noioctlcmd)

-- Wake-ups without a signal, each of which finds a change since the one before, but in no line that
-- was asked for.
abbrev pub IsQuiet : (arg : ℕ) → (cprev : Icount) → List Wake → Type 0
IsQuiet arg cprev [] = Unit
IsQuiet arg cprev (w ∷ rest) =
    (w.signal_pending ≡ false)
    × (unchanged cprev w.cnow ≡ false)
    × (asked arg cprev w.cnow ≡ false)
    × IsQuiet arg w.cnow rest

-- The counters after some wake-ups.
abbrev pub seen : Icount → List Wake → Icount
seen cprev [] = cprev
seen cprev (w ∷ rest) = seen w.cnow rest

wait_modem-quiet :
    (arg : ℕ) (before : List Wake) (cprev : Icount) (rest : List Wake)
    → IsQuiet arg cprev before
    → wait_modem arg cprev (before ++ rest) ≡ wait_modem arg (seen cprev before) rest
unfolding wait_modem
wait_modem-quiet arg [] cprev rest quiet = refl
wait_modem-quiet arg (w ∷ before) cprev rest (s, u, a, quiet) =
    rw (s, u, a) (wait_modem-quiet arg before w.cnow rest quiet)

first_wake :
    (signal same change : Bool) (later : Option Ret) (user : Mem)
    → (signal ≡ true) ⊎ ((same ≡ true) ⊎ (change ≡ true))
    → (elim (if signal
          then some (fail restartsys)
          else if same
          then some (fail eio)
          else if change
          then some (ret 0)
          else later)
        as (λ x. Option (Mem × Ret)) [ none ↦ none | some r ↦ some (user, r) ])
      ≡ some (user, if signal then fail restartsys else if same then fail eio else ret 0)
first_wake true same change later user why = refl
first_wake false true change later user why = refl
first_wake false false true later user why = refl
first_wake false false false later user why = absurd (ground arith)

-- The wait passes over any number of wake-ups that find no change in a line that was asked for, and
-- ends by the first that does: with 0 for such a change since the wake-up before, with ERESTARTSYS
-- for a signal, with EIO where no line has changed.
pub ioctl-wait :
    (copies : Copies) (hz : ℕ) (t : Tiny) (user : Mem) (arg : ℕ) (before rest : List Wake)
    (w : Wake)
    → IsQuiet arg t.icount before
    → (w.signal_pending ≡ true)
      ⊎ ((unchanged (seen t.icount before) w.cnow ≡ true)
          ⊎ (asked arg (seen t.icount before) w.cnow ≡ true))
    → ioctl copies hz t user tiocmiwait arg (before ++ (w ∷ rest))
      ≡ some (
        user,
        if w.signal_pending
            then fail restartsys
            else if unchanged (seen t.icount before) w.cnow
            then fail eio
            else ret 0,
      )
unfolding ioctl wait_modem
ioctl-wait copies hz t user arg before rest w quiet why =
    rw (wait_modem-quiet arg before t.icount (w ∷ rest) quiet) (
      first_wake w.signal_pending (unchanged (seen t.icount before) w.cnow)
        (asked arg (seen t.icount before) w.cnow) (wait_modem arg w.cnow rest) user why)
