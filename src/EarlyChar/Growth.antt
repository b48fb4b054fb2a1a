-- ===== src/EarlyChar/Growth.antt =====
-- How char/lab4_char_seek.c, char/lab5_char_poll.c and char/lab6_char_fasync.c agree over reads, writes and
-- seeks.
use ldd_samples.Prelude.{ℕ, ◌≡◌, ◌≢◌, refl, ◌∙◌, ap, Bool, List, [], ◌∷◌, arith}
use ldd_samples.Kernel.{Ret}
use ldd_samples.Kernel.Memory.{CopyFn}
use ldd_samples.CharDev as Fasync
use ldd_samples.EarlyChar.Poll as Poll
use ldd_samples.EarlyChar.Seek as Seek

-- The calls that the three have in common.
pub data Op : Type 0 where
  reading : (signal_pending : Bool) (buf lbuf : ℕ) → Op
  writing : (buf lbuf : ℕ) → Op
  seeking : (offset orig : ℕ) → Op

-- The state of lab6_char_fasync.c without the queue of files that get SIGIO.
abbrev pub without_queue : Fasync.Call → Poll.Call
without_queue c = record {
  dev = record {
    membuff = c.dev.membuff;
    data_ready = c.dev.data_ready;
    ioc_data = c.dev.ioc_data;
    counter = c.dev.counter;
  };
  user = c.user;
  pos = c.pos;
}

-- The state of lab5_char_poll.c without its flag.
abbrev pub without_flag : Poll.Call → Seek.Call
without_flag c = record {
  dev = record { membuff = c.dev.membuff; ioc_data = c.dev.ioc_data; counter = c.dev.counter };
  user = c.user;
  pos = c.pos;
}

-- A read that sleeps on leaves all as it is.
abbrev pub after_fasync : Fasync.Call → Fasync.Outcome → Fasync.Call
after_fasync c Fasync.asleep = c
after_fasync c (Fasync.returned c' r) = c'

abbrev pub after : Poll.Call → Poll.Outcome → Poll.Call
after c Poll.asleep = c
after c (Poll.returned c' r) = c'

module _ (to_user from_user : CopyFn) where
  -- The calls on lab6_char_fasync.c.
  unfoldable pub perform_fasync : Fasync.Call → Op → Fasync.Call
  perform_fasync c (reading s buf lbuf) = after_fasync c (Fasync.read to_user s c buf lbuf)
  perform_fasync c (writing buf lbuf) = (Fasync.write from_user c buf lbuf).0
  perform_fasync c (seeking offset orig) = record c { pos = (Fasync.lseek c.pos offset orig).0 }

  pub perform_fasyncs : Fasync.Call → List Op → Fasync.Call
  perform_fasyncs c [] = c
  perform_fasyncs c (op ∷ ops) = perform_fasyncs (perform_fasync c op) ops

  -- The calls on lab5_char_poll.c.
  unfoldable pub perform_poll : Poll.Call → Op → Poll.Call
  perform_poll c (reading s buf lbuf) = after c (Poll.read to_user s c buf lbuf)
  perform_poll c (writing buf lbuf) = (Poll.write from_user c buf lbuf).0
  perform_poll c (seeking offset orig) = record c { pos = (Poll.lseek c.pos offset orig).0 }

  pub perform_polls : Poll.Call → List Op → Poll.Call
  perform_polls c [] = c
  perform_polls c (op ∷ ops) = perform_polls (perform_poll c op) ops

  -- The calls on lab4_char_seek.c, whose reads never wait.
  pub perform_seek : Seek.Call → Op → Seek.Call
  perform_seek c (reading s buf lbuf) = (Seek.read to_user c buf lbuf).0
  perform_seek c (writing buf lbuf) = (Seek.write from_user c buf lbuf).0
  perform_seek c (seeking offset orig) = record c { pos = (Seek.lseek c.pos offset orig).0 }

  pub perform_seeks : Seek.Call → List Op → Seek.Call
  perform_seeks c [] = c
  perform_seeks c (op ∷ ops) = perform_seeks (perform_seek c op) ops

  -- An ioctl ends alike in the three: with the same data, the same memory of the caller, the same result.
  pub ioctl-alike :
      (c : Fasync.Call) (cmd arg : ℕ)
      → let six = Fasync.unlocked_ioctl to_user from_user c.dev c.user cmd arg in
        let five = Poll.unlocked_ioctl to_user from_user (without_queue c).dev c.user cmd arg in
        let four =
          Seek.unlocked_ioctl to_user from_user
            (without_flag (without_queue c)).dev
            c.user
            cmd
            arg in
        (six.0.ioc_data ≡ five.0.ioc_data)
        × (five.0.ioc_data ≡ four.0.ioc_data)
        × (six.1 ≡ five.1)
        × (five.1 ≡ four.1)
  unfolding Fasync.unlocked_ioctl Poll.unlocked_ioctl Seek.unlocked_ioctl
  ioctl-alike c cmd arg = (ground arith, ground arith, ground arith, ground arith)

  -- No read of the run sleeps.
  abbrev pub AlwaysAwake : Poll.Call → List Op → Type 0
  AlwaysAwake c [] = Unit
  AlwaysAwake c (reading s buf lbuf ∷ ops) =
      (Poll.read to_user s c buf lbuf ≢ Poll.asleep)
      × AlwaysAwake (perform_poll c (reading s buf lbuf)) ops
  AlwaysAwake c (writing buf lbuf ∷ ops) = AlwaysAwake (perform_poll c (writing buf lbuf)) ops
  AlwaysAwake c (seeking offset orig ∷ ops) = AlwaysAwake (perform_poll c (seeking offset orig)) ops

  perform-without_queue :
      (c : Fasync.Call) (op : Op)
      → without_queue (perform_fasync c op) ≡ perform_poll (without_queue c) op
  unfolding perform_fasync Fasync.read Fasync.read_ready Fasync.write Fasync.lseek Poll.read
      Poll.read_ready Poll.write Poll.lseek perform_poll Fasync.moved Poll.moved Fasync.seek_target
      Poll.seek_target Fasync.clamp Poll.clamp
  perform-without_queue c (reading s buf lbuf) = ground arith
  perform-without_queue c (writing buf lbuf) = ground arith
  perform-without_queue c (seeking offset orig) = ground arith

  -- After any reads, writes and seeks, char/lab6_char_fasync.c has left the device, but for its queue of files,
  -- the caller's memory and the position as char/lab5_char_poll.c has. What the calls return is not compared.
  pub perform_all-without_queue :
      (ops : List Op) (c : Fasync.Call)
      → without_queue (perform_fasyncs c ops) ≡ perform_polls (without_queue c) ops
  unfolding perform_fasyncs perform_polls
  perform_all-without_queue [] c = refl
  perform_all-without_queue (op ∷ ops) c =
      perform_all-without_queue ops (perform_fasync c op)
      ∙ ap (λ d. perform_polls d ops) (perform-without_queue c op)

  read-without_flag :
      (s : Bool) (c : Poll.Call) (buf lbuf : ℕ)
      → Poll.read to_user s c buf lbuf ≢ Poll.asleep
      → without_flag (after c (Poll.read to_user s c buf lbuf))
        ≡ (Seek.read to_user (without_flag c) buf lbuf).0
  unfolding Poll.read Poll.read_ready Seek.read Poll.moved Seek.moved
  read-without_flag s c buf lbuf awake = ground (arith, awake)

  write-without_flag :
      (c : Poll.Call) (buf lbuf : ℕ)
      → without_flag (Poll.write from_user c buf lbuf).0
        ≡ (Seek.write from_user (without_flag c) buf lbuf).0
  unfolding Poll.write Seek.write Poll.moved Seek.moved
  write-without_flag c buf lbuf = ground arith

  lseek-without_flag :
      (pos offset orig : ℕ) → Poll.lseek pos offset orig ≡ Seek.lseek pos offset orig
  unfolding Poll.lseek Seek.lseek Poll.seek_target Seek.seek_target Poll.clamp Seek.clamp
  lseek-without_flag pos offset orig = refl

  -- After reads, writes and seeks of which no read sleeps, char/lab5_char_poll.c has left the device, but for its
  -- flag, the caller's memory and the position as char/lab4_char_seek.c has. What the calls return is not compared.
  pub perform_polls-without_flag :
      (ops : List Op) (c : Poll.Call)
      → AlwaysAwake c ops
      → without_flag (perform_polls c ops) ≡ perform_seeks (without_flag c) ops
  unfolding perform_polls perform_seeks perform_poll perform_seek
  perform_polls-without_flag [] c awake = refl
  perform_polls-without_flag (reading s buf lbuf ∷ ops) c (up, ups) =
      perform_polls-without_flag ops (perform_poll c (reading s buf lbuf)) ups
      ∙ ap (λ d. perform_seeks d ops) (read-without_flag s c buf lbuf up)
  perform_polls-without_flag (writing buf lbuf ∷ ops) c ups =
      perform_polls-without_flag ops (perform_poll c (writing buf lbuf)) ups
      ∙ ap (λ d. perform_seeks d ops) (write-without_flag c buf lbuf)
  perform_polls-without_flag (seeking offset orig ∷ ops) c ups =
      perform_polls-without_flag ops (perform_poll c (seeking offset orig)) ups
      ∙ ap (λ (r : ℕ × Ret). perform_seeks (record (without_flag c) { pos = r.0 }) ops)
          (lseek-without_flag c.pos offset orig)
