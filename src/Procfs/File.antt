-- ===== src/Procfs/File.antt =====
-- `procfile_read`, `procfile_write`, `dbgproc_init` and `dbgproc_exit` of debug/debug_lab2_procfs.c. The kernel's
-- `simple_write_to_buffer`, `simple_read_from_buffer` and `strlen` are parameters.
use ldd_samples.Prelude.{
  ℕ, ◌+◌, ◌≤◌, ◌<◌, ◌≡◌, ◌≢◌, Bool, Option, none, some, List, [], ◌∷◌, ◌==◌, ltb, if◌then◌else◌,
}
use ldd_samples.Kernel.{Ret, ret, fail, enomem}
use ldd_samples.Kernel.Memory.{Mem}
use ldd_samples.Kernel.Ledger.{proc_entry, Effect, acquire, release}

-- `MAXBUFF`
abbrev pub maxbuff : ℕ
maxbuff = 128

-- Both: the destination, and in it the size and the position for a write; the source; the length; to the
-- destination and the position afterwards, and the result.
abbrev pub WriteFn : Type 0
WriteFn = (to : Mem) (available pos : ℕ) (from : Mem) (buf len : ℕ) → Mem × ℕ × Ret

abbrev pub ReadFn : Type 0
ReadFn = (to : Mem) (buf len pos : ℕ) (from : Mem) (available : ℕ) → Mem × ℕ × Ret

-- What is documented of `simple_write_to_buffer` where it returns a number.
pub record IsWrite (write_to : WriteFn) : Type 0 where
  pub fits :
      (to : Mem) (available pos : ℕ) (from : Mem) (buf len n : ℕ)
      → pos ≤ available
      → (write_to to available pos from buf len).2 ≡ ret n
      → (n ≤ len) × (pos + n ≤ available)
  pub copied :
      (to : Mem) (available pos : ℕ) (from : Mem) (buf len n i : ℕ)
      → (write_to to available pos from buf len).2 ≡ ret n
      → i < n
      → (write_to to available pos from buf len).0 (pos + i) ≡ from (buf + i)

-- What is documented of `simple_read_from_buffer` where it returns a number.
pub record IsRead (read_from : ReadFn) : Type 0 where
  pub fits :
      (to : Mem) (buf len pos : ℕ) (from : Mem) (available n : ℕ)
      → pos ≤ available
      → (read_from to buf len pos from available).2 ≡ ret n
      → (n ≤ len) × (pos + n ≤ available)
  pub copied :
      (to : Mem) (buf len pos : ℕ) (from : Mem) (available n i : ℕ)
      → (read_from to buf len pos from available).2 ≡ ret n
      → i < n
      → (read_from to buf len pos from available).0 (buf + i) ≡ from (pos + i)

-- What is documented of `strlen`, for a text that ends in the buffer.
pub record IsStrlen (strlen : Mem → ℕ) : Type 0 where
  pub ends : (text : Mem) (n : ℕ) → n < maxbuff → text n ≡ 0 → strlen text ≤ n
  pub runs :
      (text : Mem) (n : ℕ)
      → n < maxbuff
      → text n ≡ 0
      → ((i : ℕ) → i < n → text i ≢ 0)
      → n ≤ strlen text

-- The buffer afterwards, the position and the result; `none` where the zero goes in front of the buffer, for
-- an error, or behind it, for as many bytes as the buffer has.
unfoldable pub procfile_write :
    WriteFn → (proc_buff : Mem) (off : ℕ) (user : Mem) (buf len : ℕ) → Option (Mem × ℕ × Ret)
procfile_write write_to proc_buff off user buf len =
    let (mem, off', r) = write_to proc_buff maxbuff off user buf len in
    elim r [
      | fail e ↦ none
      | ret n ↦
          if ltb n maxbuff then some ((λ i. if i == n then 0 else mem i), off', ret n) else none
    ]

unfoldable pub procfile_read :
    ReadFn
    → (strlen : Mem → ℕ) → (proc_buff : Mem) (off : ℕ) (user : Mem) (buf len : ℕ) → Mem × ℕ × Ret
procfile_read read_from strlen proc_buff off user buf len =
    read_from user buf len off proc_buff (strlen proc_buff)

-- The calls of `dbgproc_init`, by whether `proc_mkdir` and `proc_create_data` succeed.
unfoldable pub dbgproc_init : (made created : Bool) → List Effect × Ret
dbgproc_init made created =
    if made
    then (if created
        then (acquire proc_entry ∷ acquire proc_entry ∷ [], ret 0)
        else (acquire proc_entry ∷ release proc_entry ∷ [], fail enomem))
    else ([], fail enomem)

unfoldable pub dbgproc_exit : List Effect
dbgproc_exit = release proc_entry ∷ release proc_entry ∷ []
