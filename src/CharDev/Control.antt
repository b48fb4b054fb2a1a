-- ===== src/CharDev/Control.antt =====
-- `chardrv_unlocked_ioctl`, `chardrv_poll`, `chardrv_fasync` and `chardrv_release` of
-- char/lab6_char_fasync.c.
use ldd_samples.Prelude.{
  ℕ, ◌+◌, ◌-◌, ◌^◌, ◌≤◌, ◌<◌, ◌≡◌, ◌≢◌, ◌⊎◌, Bool, true, false, List, [], ◌∷◌, arith, ◌==◌, ◌||◌,
}
use ldd_samples.Kernel.{ret, fail, einval}
use ldd_samples.Kernel.Memory.{Mem, CopyFn, IsCopy}
use ldd_samples.Kernel.Ioctl.{ioc_type, ioc_dir, ioc_size}
use ldd_samples.CharDev.{
  lddioc_type, ioctl_data_size, Dev, Call, Event, wake_up, sigio, unlocked_ioctl, write, FasyncFn,
  release, membuff_size,
}

module _ {to_user from_user : CopyFn} (to_ok : IsCopy to_user) (from_ok : IsCopy from_user) where
  -- A command of another type, or with neither direction alone, is refused and changes nothing.
  pub ioctl-refused :
      (d : Dev) (user : Mem) (cmd arg : ℕ)
      → (ioc_type cmd ≢ lddioc_type) ⊎ ((ioc_dir cmd ≡ 0) ⊎ (ioc_dir cmd ≡ 3))
      → unlocked_ioctl to_user from_user d user cmd arg ≡ (d, user, fail einval)
  unfolding unlocked_ioctl
  ioctl-refused d user cmd arg bad = ground arith

  -- Data that a command writes to the device comes back by a command that reads the same size,
  -- where both copies are complete (both calls return 0).
  pub ioctl_round_trip :
      (d : Dev) (user : Mem) (put get from to a : ℕ)
      → ioc_type put ≡ lddioc_type
      → ioc_type get ≡ lddioc_type
      → ioc_dir put ≡ 1
      → ioc_dir get ≡ 2
      → ioc_size get ≡ ioc_size put
      → (unlocked_ioctl to_user from_user d user put from).2 ≡ ret 0
      → (unlocked_ioctl to_user from_user
          (unlocked_ioctl to_user from_user d user put from).0
          user
          get
          to).2
        ≡ ret 0
      → a < ioc_size put
      → (unlocked_ioctl to_user from_user
            (unlocked_ioctl to_user from_user d user put from).0
            user
            get
            to).1
          (to + a)
        ≡ user (from + a)
  unfolding unlocked_ioctl
  ioctl_round_trip d user put get from to a tp tg dp dg sz okp okg lt =
      let mem : Mem = (from_user d.ioc_data 0 user from (ioc_size put)).0 in
      ground (
        arith,
        from_ok.copied d.ioc_data 0 user from (ioc_size put) a,
        to_ok.copied user to mem 0 (ioc_size put) (to + a),
      )

  -- The size is taken from the command alone: a write command with a size above that of `ioc_data`,
  -- copied in full, overwrites each byte behind it that the size covers.
  pub ioctl_overrun :
      (d : Dev) (user : Mem) (cmd arg a : ℕ)
      → ioc_type cmd ≡ lddioc_type
      → ioc_dir cmd ≡ 1
      → (unlocked_ioctl to_user from_user d user cmd arg).2 ≡ ret 0
      → ioctl_data_size ≤ a
      → a < ioc_size cmd
      → (unlocked_ioctl to_user from_user d user cmd arg).0.ioc_data a ≡ user (arg + a)
  unfolding unlocked_ioctl
  ioctl_overrun d user cmd arg a t dir done lo hi =
      ground (arith, from_ok.copied d.ioc_data 0 user arg (ioc_size cmd) a)

  -- A command whose size is at most that of `ioc_data` changes no byte behind it, and no command
  -- changes the buffer or the caller's memory outside the range of its argument.
  pub ioctl-frame :
      (d : Dev) (user : Mem) (cmd arg a b : ℕ)
      → ioc_size cmd ≤ ioctl_data_size
      → ioctl_data_size ≤ a
      → (b < arg) ⊎ (arg + ioc_size cmd ≤ b)
      → ((unlocked_ioctl to_user from_user d user cmd arg).0.ioc_data a ≡ d.ioc_data a)
        × ((unlocked_ioctl to_user from_user d user cmd arg).0.membuff ≡ d.membuff)
        × ((unlocked_ioctl to_user from_user d user cmd arg).1 b ≡ user b)
  unfolding unlocked_ioctl
  ioctl-frame d user cmd arg a b small behind outside = ground (
    arith,
    from_ok.frame d.ioc_data 0 user arg (ioc_size cmd) a,
    to_ok.frame user arg d.ioc_data 0 (ioc_size cmd) b,
  )

-- What is documented of `fasync_helper`: with mode 0 it takes the file out of the queue and leaves
-- the other files in it; with another mode it leaves each file of the queue in it and adds the
-- file, if it returns no error.
abbrev pub has : ℕ → List ℕ → Bool
has f [] = false
has f (g ∷ queue) = f == g || has f queue

pub record IsFasync (helper : FasyncFn) : Type 0 where
  pub removed : (fd file : ℕ) (queue : List ℕ) → has file (helper fd file 0 queue).0 ≡ false
  pub kept :
      (fd file mode other : ℕ) (queue : List ℕ)
      → other ≢ file
      → has other (helper fd file mode queue).0 ≡ has other queue

-- The files that a call's events send SIGIO to.
abbrev pub signalled : ℕ → List Event → Bool
signalled f [] = false
signalled f (wake_up ∷ events) = signalled f events
signalled f (sigio queue ∷ events) = has f queue || signalled f events

module _ {helper : FasyncFn} (is_fasync : IsFasync helper) (copy : CopyFn) where
  -- By a write that fits the buffer, a file that has been released gets no SIGIO, and another file
  -- that asked for it gets it.
  pub release-write :
      (c : Call) (file other buf lbuf : ℕ)
      → other ≢ file
      → has other c.dev.async_queue ≡ true
      → lbuf + c.pos ≤ membuff_size
      → (signalled file (write copy (record c { dev = (release helper c.dev file).0 }) buf lbuf).1
          ≡ false)
        × (signalled other
              (write copy (record c { dev = (release helper c.dev file).0 }) buf lbuf).1
            ≡ true)
  unfolding write release
  release-write c file other buf lbuf ne asked fits = ground (
    arith,
    is_fasync.removed (2 ^ 32 - 1) file c.dev.async_queue,
    is_fasync.kept (2 ^ 32 - 1) file 0 other c.dev.async_queue,
  )
