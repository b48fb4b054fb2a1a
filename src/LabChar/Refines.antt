-- ===== src/LabChar/Refines.antt =====
-- The entry points of io/lab_char.h do what the plain description says.
use ldd_samples.Prelude.{ℕ, ◌+◌, ◌-◌, ◌^◌, ◌≤◌, ◌<◌, ◌≡◌, refl, ap, ◌∙◌, List, [], ◌∷◌, arith, min}
use ldd_samples.Kernel.{Ret, ret}
use ldd_samples.Kernel.Word.{add64, extend_int, max_rw_count}
use ldd_samples.Kernel.Memory.{Mem, CopyFn, IsCopy}
use ldd_samples.LabChar.Calls.{
  ramdisk_size, Disk, bytes_to_do, nbytes, generic_read, generic_write, seek_to, generic_lseek, Op,
  reads, writes, seeks, perform, perform_all,
}
use ldd_samples.LabChar.Plain.{
  plain_read, plain_write, target, plain_seek, plain, plain_all, OpsFit,
}

bytes_to_do-min :
    (ppos lbuf : ℕ)
    → ppos ≤ ramdisk_size
    → lbuf ≤ max_rw_count
    → extend_int (bytes_to_do ppos lbuf) ≡ min lbuf (ramdisk_size - ppos)
unfolding bytes_to_do
bytes_to_do-min ppos lbuf inside small = ground arith

nbytes-sub :
    (bytes left n : ℕ)
    → extend_int bytes ≡ n
    → n ≤ ramdisk_size
    → left ≤ n
    → extend_int (nbytes bytes left) ≡ n - left
unfolding nbytes
nbytes-sub bytes left n e small fits = ground arith

-- The position and the count after a transfer, from the bytes that it was to move and those left over.
counts-plain :
    (ppos lbuf left : ℕ)
    → ppos ≤ ramdisk_size
    → lbuf ≤ max_rw_count
    → left ≤ min lbuf (ramdisk_size - ppos)
    → let n = min lbuf (ramdisk_size - ppos) in
      (add64 ppos (extend_int (nbytes (bytes_to_do ppos lbuf) left)) ≡ ppos + (n - left))
      × (extend_int (nbytes (bytes_to_do ppos lbuf) left) ≡ n - left)
counts-plain ppos lbuf left inside small fits =
    let n : ℕ = min lbuf (ramdisk_size - ppos) in
    let count : extend_int (nbytes (bytes_to_do ppos lbuf) left) ≡ n - left =
      nbytes-sub (bytes_to_do ppos lbuf) left n (bytes_to_do-min ppos lbuf inside small)
        (omega arith) fits in
    (ap (add64 ppos) count ∙ omega arith, count)

-- A transfer of `n` bytes by a copy, with what is made of the bytes left over.
moved :
    (finish : Mem → ℕ → ℕ → Disk × Ret) (copy : ℕ → Mem × ℕ) (n n' : ℕ)
    (pos pos' count count' : ℕ → ℕ)
    → n ≡ n'
    → (pos (copy n').1 ≡ pos' (copy n').1) × (count (copy n').1 ≡ count' (copy n').1)
    → finish (copy n).0 (pos (copy n).1) (count (copy n).1)
      ≡ finish (copy n').0 (pos' (copy n').1) (count' (copy n').1)
moved finish copy n n' pos pos' count count' e (p, c) =
    ap (λ m. finish (copy m).0 (pos (copy m).1) (count (copy m).1)) e
    ∙ ap (λ a. finish (copy n').0 a (count (copy n').1)) p
    ∙ ap (λ b. finish (copy n').0 (pos' (copy n').1) b) c

module _ (to_user from_user : CopyFn) (is_to : IsCopy to_user) (is_from : IsCopy from_user) where
  read-plain :
      (d : Disk) (buf lbuf : ℕ)
      → d.f_pos ≤ ramdisk_size
      → lbuf ≤ max_rw_count
      → generic_read to_user d buf lbuf ≡ plain_read to_user d buf lbuf
  unfolding generic_read plain_read
  read-plain d buf lbuf inside small =
      let bytes : ℕ = bytes_to_do d.f_pos lbuf in
      let n : ℕ = min lbuf (ramdisk_size - d.f_pos) in
      let copy : ℕ → Mem × ℕ = λ m. to_user d.user buf d.ramdisk d.f_pos m in
      moved (λ m p c. (record d { user = m; f_pos = p }, ret c)) copy (extend_int bytes) n
        (λ left. add64 d.f_pos (extend_int (nbytes bytes left))) (λ left. d.f_pos + (n - left))
        (λ left. extend_int (nbytes bytes left)) (λ left. n - left)
        (bytes_to_do-min d.f_pos lbuf inside small)
        (counts-plain d.f_pos lbuf (copy n).1 inside small
          (is_to.left-le d.user buf d.ramdisk d.f_pos n))

  write-plain :
      (d : Disk) (buf lbuf : ℕ)
      → d.f_pos ≤ ramdisk_size
      → lbuf ≤ max_rw_count
      → generic_write from_user d buf lbuf ≡ plain_write from_user d buf lbuf
  unfolding generic_write plain_write
  write-plain d buf lbuf inside small =
      let bytes : ℕ = bytes_to_do d.f_pos lbuf in
      let n : ℕ = min lbuf (ramdisk_size - d.f_pos) in
      let copy : ℕ → Mem × ℕ = λ m. from_user d.ramdisk d.f_pos d.user buf m in
      moved (λ m p c. (record d { ramdisk = m; f_pos = p }, ret c)) copy (extend_int bytes) n
        (λ left. add64 d.f_pos (extend_int (nbytes bytes left))) (λ left. d.f_pos + (n - left))
        (λ left. extend_int (nbytes bytes left)) (λ left. n - left)
        (bytes_to_do-min d.f_pos lbuf inside small)
        (counts-plain d.f_pos lbuf (copy n).1 inside small
          (is_from.left-le d.ramdisk d.f_pos d.user buf n))

seek_to-min :
    (d : Disk) (testpos : ℕ)
    → seek_to d testpos
      ≡ (record d { f_pos = min testpos ramdisk_size }, ret (min testpos ramdisk_size))
unfolding seek_to
seek_to-min d testpos = ap (λ p. (record d { f_pos = p }, ret p)) (ground arith)

lseek-plain : (d : Disk) (offset orig : ℕ) → generic_lseek d offset orig ≡ plain_seek d offset orig
unfolding generic_lseek seek_to plain_seek target
lseek-plain d offset orig = ground arith

OpFits : Op → Type 0
OpFits op = OpsFit (op ∷ [])

OpsFit-head : (op : Op) (ops : List Op) → OpsFit (op ∷ ops) → OpFits op
unfolding OpFits
OpsFit-head (reads buf lbuf) ops fits = (fits.0, tt)
OpsFit-head (writes buf lbuf) ops fits = (fits.0, tt)
OpsFit-head (seeks offset orig) ops fits = tt

OpsFit-tail : (op : Op) (ops : List Op) → OpsFit (op ∷ ops) → OpsFit ops
OpsFit-tail (reads buf lbuf) ops fits = fits.1
OpsFit-tail (writes buf lbuf) ops fits = fits.1
OpsFit-tail (seeks offset orig) ops fits = fits

perform-plain :
    (to_user from_user : CopyFn) (is_to : IsCopy to_user) (is_from : IsCopy from_user) (d : Disk)
    (op : Op)
    → d.f_pos ≤ ramdisk_size
    → OpFits op
    → perform to_user from_user d op ≡ plain to_user from_user d op
unfolding perform plain OpFits
perform-plain to_user from_user is_to is_from d (reads buf lbuf) inside fits =
    read-plain to_user from_user is_to is_from d buf lbuf inside fits.0
perform-plain to_user from_user is_to is_from d (writes buf lbuf) inside fits =
    write-plain to_user from_user is_to is_from d buf lbuf inside fits.0
perform-plain to_user from_user is_to is_from d (seeks offset orig) inside fits =
    lseek-plain d offset orig

plain-inside :
    (to_user from_user : CopyFn) (d : Disk) (op : Op)
    → d.f_pos ≤ ramdisk_size
    → (plain to_user from_user d op).0.f_pos ≤ ramdisk_size
unfolding plain
plain-inside to_user from_user d (reads buf lbuf) inside = omega arith
plain-inside to_user from_user d (writes buf lbuf) inside = omega arith
plain-inside to_user from_user d (seeks offset orig) inside = ground arith

-- From a position inside the device or at its end, any sequence of reads and writes of lengths that the VFS
-- lets through and of seeks, whatever their copies leave over, has the effects and the results that the
-- plain description says, and ends inside the device or at its end.
pub perform_all-plain :
    (to_user from_user : CopyFn) (is_to : IsCopy to_user) (is_from : IsCopy from_user) (d : Disk)
    (ops : List Op)
    → d.f_pos ≤ ramdisk_size
    → OpsFit ops
    → (perform_all to_user from_user d ops ≡ plain_all to_user from_user d ops)
      × ((perform_all to_user from_user d ops).0.f_pos ≤ ramdisk_size)
unfolding perform_all plain_all
perform_all-plain to_user from_user is_to is_from d [] inside fits = (refl, inside)
perform_all-plain to_user from_user is_to is_from d (op ∷ ops) inside fits =
    let one : perform to_user from_user d op ≡ plain to_user from_user d op =
      perform-plain to_user from_user is_to is_from d op inside (OpsFit-head op ops fits) in
    let d' : Disk = (plain to_user from_user d op).0 in
    let rest =
      perform_all-plain to_user from_user is_to is_from d' ops
        (plain-inside to_user from_user d op inside) (OpsFit-tail op ops fits) in
    rw one
      (ap (λ (x : Disk × List Ret). (x.0, (plain to_user from_user d op).1 ∷ x.1)) rest.0, rest.1)

all_of :
    (p n : ℕ)
    → ramdisk_size < p
    → p ≤ ramdisk_size + 2 ^ 31
    → n < 2 ^ 31
    → extend_int (bytes_to_do p n) ≡ n
unfolding bytes_to_do
all_of p n past near small = ground arith

none_left :
    (b n left : ℕ) → extend_int b ≡ n → n < 2 ^ 31 → left ≡ 0 → extend_int (nbytes b left) ≡ n
unfolding nbytes
none_left b n left e small zero = ground arith

-- At a position past the end and less than 2 ^ 31 behind it, which no seek gives but a positional call can, a
-- read of up to that many bytes asks the copy for all of them, from behind the device.
pub read-past :
    (copy : CopyFn) (d : Disk) (buf lbuf : ℕ)
    → ramdisk_size < d.f_pos
    → d.f_pos ≤ ramdisk_size + 2 ^ 31
    → lbuf < 2 ^ 31
    → (copy d.user buf d.ramdisk d.f_pos lbuf).1 ≡ 0
    → generic_read copy d buf lbuf ≡ (
      record d { user = (copy d.user buf d.ramdisk d.f_pos lbuf).0; f_pos = d.f_pos + lbuf },
      ret lbuf,
    )
unfolding generic_read
read-past copy d buf lbuf past near small whole =
    moved (λ m p c. (record d { user = m; f_pos = p }, ret c))
      (λ m. copy d.user buf d.ramdisk d.f_pos m) (extend_int (bytes_to_do d.f_pos lbuf)) lbuf
      (λ left. add64 d.f_pos (extend_int (nbytes (bytes_to_do d.f_pos lbuf) left)))
      (λ left. d.f_pos + lbuf) (λ left. extend_int (nbytes (bytes_to_do d.f_pos lbuf) left))
      (λ left. lbuf) (all_of d.f_pos lbuf past near small)
      (ap (add64 d.f_pos) count ∙ omega arith, count)
  where
    count :
        extend_int (nbytes (bytes_to_do d.f_pos lbuf) (copy d.user buf d.ramdisk d.f_pos lbuf).1)
        ≡ lbuf
    count =
        none_left (bytes_to_do d.f_pos lbuf) lbuf _ (all_of d.f_pos lbuf past near small) small
          whole
