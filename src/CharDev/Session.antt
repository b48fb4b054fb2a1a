-- ===== src/CharDev/Session.antt =====
-- Any sequence of read, write, lseek, ioctl, poll and fasync calls on one open file of
-- char/lab6_char_fasync.c, and of releases.
use ldd_samples.Prelude.{ℕ, ◌+◌, ◌≤◌, ◌<◌, ◌≡◌, refl, ◌∙◌, inr, Bool, false, List, [], ◌∷◌, arith}
use ldd_samples.Kernel.Word.{max_rw_count}
use ldd_samples.Kernel.Ioctl.{ioc_size}
use ldd_samples.Kernel.Memory.{CopyFn, IsCopy, whole_copy}
use ldd_samples.CharDev.{
  membuff_size, ioctl_data_size, Dev, Call, asleep, returned, Outcome, read_ready, read, write,
  lseek, unlocked_ioctl, FasyncFn, fasync, release,
}
use ldd_samples.CharDev.Transfer.{write-frame, moved-eq-sub}

-- The calls of a process: their buffers and lengths, their offsets and origins.
pub data Op : Type 0 where
  reading : (signal_pending : Bool) (buf lbuf : ℕ) → Op
  writing : (buf lbuf : ℕ) → Op
  seeking : (offset orig : ℕ) → Op
  controlling : (cmd arg : ℕ) → Op
  polling : Op
  notifying : (fd file mode : ℕ) → Op
  releasing : (file : ℕ) → Op

-- A read or a write has a length that the VFS has cut, and an ioctl a command whose size is at most that of
-- `ioc_data`, which the driver does not see to.
abbrev pub IsBounded : Op → Type 0
IsBounded (reading s buf lbuf) = lbuf ≤ max_rw_count
IsBounded (writing buf lbuf) = lbuf ≤ max_rw_count
IsBounded (seeking offset orig) = Unit
IsBounded (controlling cmd arg) = ioc_size cmd ≤ ioctl_data_size
IsBounded polling = Unit
IsBounded (notifying fd file mode) = Unit
IsBounded (releasing file) = Unit

abbrev pub AllBounded : List Op → Type 0
AllBounded [] = Unit
AllBounded (op ∷ ops) = IsBounded op × AllBounded ops

-- A read that sleeps on leaves all as it is.
abbrev pub after : Call → Outcome → Call
after c asleep = c
after c (returned c' r) = c'

module _ (to_user from_user : CopyFn) (fasync_helper : FasyncFn) where
  -- A poll looks at `data_ready` alone.
  unfoldable pub perform : Call → Op → Call
  perform c (reading s buf lbuf) = after c (read to_user s c buf lbuf)
  perform c (writing buf lbuf) = (write from_user c buf lbuf).0
  perform c (seeking offset orig) = record c { pos = (lseek c.pos offset orig).0 }
  perform c (controlling cmd arg) =
      let (d, user, r) = unlocked_ioctl to_user from_user c.dev c.user cmd arg in
      record c { dev = d; user = user }
  perform c polling = c
  perform c (notifying fd file mode) = record c {
    dev = (fasync fasync_helper c.dev fd file mode).0;
  }
  perform c (releasing file) = record c { dev = (release fasync_helper c.dev file).0 }

  unfoldable pub perform_all : Call → List Op → Call
  perform_all c [] = c
  perform_all c (op ∷ ops) = perform_all (perform c op) ops

module _ {to_user from_user : CopyFn} (to_ok : IsCopy to_user) (from_ok : IsCopy from_user)
    (helper : FasyncFn) where
  perform-pos :
      (c : Call) (op : Op)
      → IsBounded op
      → c.pos ≤ membuff_size
      → (perform to_user from_user helper c op).pos ≤ membuff_size
  unfolding perform read read_ready write lseek
  perform-pos c (reading s buf lbuf) bounded inside = ground (
    arith,
    moved-eq-sub lbuf (to_user c.user buf c.dev.membuff c.pos lbuf).1,
    to_ok.left-le c.user buf c.dev.membuff c.pos lbuf,
  )
  perform-pos c (writing buf lbuf) bounded inside = ground (
    arith,
    moved-eq-sub lbuf (from_user c.dev.membuff c.pos c.user buf lbuf).1,
    from_ok.left-le c.dev.membuff c.pos c.user buf lbuf,
  )
  perform-pos c (seeking offset orig) bounded inside = ground arith
  perform-pos c (controlling cmd arg) bounded inside = inside
  perform-pos c polling bounded inside = inside
  perform-pos c (notifying fd file mode) bounded inside = inside
  perform-pos c (releasing file) bounded inside = inside

  -- No byte of the two buffers' memory behind them changes.
  IsFramed : (a b : ℕ) → Dev → Dev → Type 0
  IsFramed a b d d' = (d'.membuff a ≡ d.membuff a) × (d'.ioc_data b ≡ d.ioc_data b)

  perform-IsFramed :
      (c : Call) (op : Op) (a b : ℕ)
      → IsBounded op
      → c.pos ≤ membuff_size
      → membuff_size ≤ a
      → ioctl_data_size ≤ b
      → IsFramed a b c.dev (perform to_user from_user helper c op).dev
  unfolding perform read read_ready write fasync release unlocked_ioctl IsFramed
  perform-IsFramed c (reading s buf lbuf) a b bounded inside behind behind' =
      (ground arith, ground arith)
  perform-IsFramed c (writing buf lbuf) a b bounded inside behind behind' =
      (write-frame from_ok c buf lbuf a (omega arith) (inr (inr behind)), ground arith)
  perform-IsFramed c (seeking offset orig) a b bounded inside behind behind' = (refl, refl)
  perform-IsFramed c (controlling cmd arg) a b bounded inside behind behind' = (
    ground arith,
    ground (arith, bounded, behind', from_ok.frame c.dev.ioc_data 0 c.user arg (ioc_size cmd) b),
  )
  perform-IsFramed c polling a b bounded inside behind behind' = (refl, refl)
  perform-IsFramed c (notifying fd file mode) a b bounded inside behind behind' = (refl, refl)
  perform-IsFramed c (releasing file) a b bounded inside behind behind' = (refl, refl)

  -- From a position inside the device or at its end, after any sequence of reads, writes, seeks, ioctls, polls,
  -- calls of fasync and releases, with copies that may fault, with lengths that the VFS lets through and with
  -- ioctl commands of a size that `ioc_data` has room for, which the driver does not check: the position is
  -- inside the device or at its end, and no byte behind the buffer or behind `ioc_data` has changed.
  pub perform_all-in_bounds :
      (ops : List Op) (c : Call) (a b : ℕ)
      → AllBounded ops
      → c.pos ≤ membuff_size
      → membuff_size ≤ a
      → ioctl_data_size ≤ b
      → ((perform_all to_user from_user helper c ops).pos ≤ membuff_size)
        × ((perform_all to_user from_user helper c ops).dev.membuff a ≡ c.dev.membuff a)
        × ((perform_all to_user from_user helper c ops).dev.ioc_data b ≡ c.dev.ioc_data b)
  unfolding perform_all IsFramed
  perform_all-in_bounds [] c a b bounded inside behind behind' = (inside, refl, refl)
  perform_all-in_bounds (op ∷ ops) c a b (v, vs) inside behind behind' =
      let (p, m, i) =
        perform_all-in_bounds ops (perform to_user from_user helper c op) a b vs
          (perform-pos c op v inside) behind behind' in
      let (m', i') = perform-IsFramed c op a b v inside behind behind' in (p, m ∙ m', i ∙ i')

-- What is written at a position comes back from a read at that position, once lseek has gone back
-- there: with copies that do not fault, a range that fits the buffer and a data buffer `to` for
-- the read, the caller has at `to + i` the byte that it gave at `from + i`.
pub write-seek-read :
    (helper : FasyncFn) (c : Call) (from to lbuf i : ℕ)
    → lbuf + c.pos ≤ membuff_size
    → i < lbuf
    → (perform_all whole_copy whole_copy helper c
          (writing from lbuf ∷ seeking c.pos 0 ∷ reading false to lbuf ∷ [])).user
        (to + i)
      ≡ c.user (from + i)
unfolding perform_all perform read read_ready write lseek whole_copy
write-seek-read helper c from to lbuf i fits lt = ground arith
