-- ===== src/Procfs/Text.antt =====
-- What text the proc file of debug/debug_lab2_procfs.c has after a write.
use ldd_samples.Prelude.{
  ℕ, ◌+◌, ◌≤◌, ◌<◌, ◌≡◌, ◌≢◌, ◌⊎◌, ◌∙◌, ap, sym, Bool, none, some, [], ◌++◌, arith, ◌==◌, ltb,
  Option, if◌then◌else◌,
}
use ldd_samples.Kernel.{Ret, ret, fail}
use ldd_samples.Kernel.Memory.{Mem}
use ldd_samples.Kernel.Ledger.{replay}
use ldd_samples.Procfs.File.{
  maxbuff, WriteFn, ReadFn, IsWrite, IsRead, IsStrlen, procfile_write, procfile_read, dbgproc_init,
  dbgproc_exit,
}

-- The buffer that a write leaves which returned `n`.
abbrev pub ended : Mem → ℕ → Mem
ended mem n i = if i == n then 0 else mem i

module _ {write_to : WriteFn} {read_from : ReadFn} {strlen : Mem → ℕ} (is_write : IsWrite write_to)
    (is_read : IsRead read_from) (is_strlen : IsStrlen strlen) (proc_buff user : Mem)
    (buf len n : ℕ) where
  write-ended :
      (off : ℕ)
      → n < maxbuff
      → (write_to proc_buff maxbuff off user buf len).2 ≡ ret n
      → procfile_write write_to proc_buff off user buf len
        ≡ some (
          ended (write_to proc_buff maxbuff off user buf len).0 n,
          (write_to proc_buff maxbuff off user buf len).1,
          ret n,
        )
  unfolding procfile_write
  write-ended off room e = ap answered e ∙ kept room
    where
      mem : Mem
      mem = (write_to proc_buff maxbuff off user buf len).0

      left : ℕ → Mem × ℕ × Ret
      left k = (ended mem k, (write_to proc_buff maxbuff off user buf len).1, ret k)

      answered : Ret → Option (Mem × ℕ × Ret)
      answered r = elim r [ fail x ↦ none | ret k ↦ if ltb k maxbuff then some (left k) else none ]

      kept : n < maxbuff → (if ltb n maxbuff then some (left n) else none) ≡ some (left n)
      kept room = ground (arith, room)

  -- A write that returns `n`, less than the size of the buffer, wherever it is in the buffer, leaves a text of `n`
  -- bytes at most: what stood before a later position is cut to that.
  pub write-cut :
      (off : ℕ)
      → n < maxbuff
      → (write_to proc_buff maxbuff off user buf len).2 ≡ ret n
      → (mem : Mem) × (off' : ℕ) × (procfile_write write_to proc_buff off user buf len
          ≡ some (mem, off', ret n))
        × (strlen mem ≤ n)
  write-cut off room e = (
    ended (write_to proc_buff maxbuff off user buf len).0 n,
    (write_to proc_buff maxbuff off user buf len).1,
    write-ended off room e,
    is_strlen.ends (ended (write_to proc_buff maxbuff off user buf len).0 n) n room (at n),
  )
    where
      at : (n : ℕ) → (if n == n then 0 else (write_to proc_buff maxbuff off user buf len).0 n) ≡ 0
      at n = ground arith

  -- The buffer behind a write at the start of the file.
  abbrev pub behind : Mem
  behind = ended (write_to proc_buff maxbuff 0 user buf len).0 n

  behind-byte :
      (i : ℕ)
      → (write_to proc_buff maxbuff 0 user buf len).2 ≡ ret n
      → i < n
      → behind i ≡ user (buf + i)
  behind-byte i e lt =
      keep i lt
      ∙ ap (write_to proc_buff maxbuff 0 user buf len).0 (omega arith)
      ∙ is_write.copied proc_buff maxbuff 0 user buf len n i e lt
    where
      keep : (i : ℕ) → i < n → behind i ≡ (write_to proc_buff maxbuff 0 user buf len).0 i
      keep i lt = ground (arith, lt)

  behind-strlen :
      n < maxbuff
      → (write_to proc_buff maxbuff 0 user buf len).2 ≡ ret n
      → ((j : ℕ) → j < n → user (buf + j) ≢ 0)
      → strlen behind ≡ n
  behind-strlen room e texts =
      let short : strlen behind ≤ n = is_strlen.ends behind n room (at n) in
      let long : n ≤ strlen behind =
        is_strlen.runs behind n room (at n) (λ j lt z. texts j lt (sym (behind-byte j e lt) ∙ z)) in
      omega (arith, short, long)
    where
      at : (k : ℕ) → (if k == k then 0 else (write_to proc_buff maxbuff 0 user buf len).0 k) ≡ 0
      at k = ground arith

  -- A write at the start of the file for which `simple_write_to_buffer` returns `n`, less than the 128 bytes of the
  -- buffer, of bytes that are not zero: the text is `n` bytes long behind it, and a read from the start that returns
  -- a number of bytes gives the reader the writer's bytes, as many as that.
  pub write-read :
      (user' : Mem) (buf' len' m i : ℕ)
      → n < maxbuff
      → (write_to proc_buff maxbuff 0 user buf len).2 ≡ ret n
      → ((j : ℕ) → j < n → user (buf + j) ≢ 0)
      → (procfile_read read_from strlen behind 0 user' buf' len').2 ≡ ret m
      → i < m
      → (procfile_write write_to proc_buff 0 user buf len
          ≡ some (behind, (write_to proc_buff maxbuff 0 user buf len).1, ret n))
        × (strlen behind ≡ n)
        × ((procfile_read read_from strlen behind 0 user' buf' len').0 (buf' + i) ≡ user (buf + i))
  unfolding procfile_read
  write-read user' buf' len' m i room e texts r lt =
      let size = behind-strlen room e texts in
      let (short, inside) =
        is_read.fits user' buf' len' 0 behind (strlen behind) m (omega arith) r in
      (
        write-ended 0 room e,
        size,
        is_read.copied user' buf' len' 0 behind (strlen behind) m i r lt
            ∙ ap behind (omega arith)
            ∙ behind-byte i e (omega (arith, size, inside, lt)),
      )

-- An init that fails leaves nothing, and one that succeeds and the exit after it leave nothing either.
pub procfs_init-exit :
    (made created : Bool)
    → (((dbgproc_init made created).1 ≡ ret 0)
        × (replay ((dbgproc_init made created).0 ++ dbgproc_exit) [] ≡ some []))
      ⊎ (replay (dbgproc_init made created).0 [] ≡ some [])
unfolding dbgproc_init dbgproc_exit
procfs_init-exit made created = ground arith
