-- ===== src/LabChar/Tests.antt =====
-- Runs of io/lab_char.h at concrete inputs.
use ldd_samples.Prelude.{◌+◌, ◌-◌, ◌^◌, ◌≤◌, ◌≡◌, refl, List, [], ◌∷◌, arith}
use ldd_samples.Kernel.{ret}
use ldd_samples.Kernel.Memory.{Mem, whole_copy, whole_copy-IsCopy, short_copy, short_copy-IsCopy}
use ldd_samples.LabChar.Calls.{ramdisk_size, Disk, Op, reads, writes, seeks, perform_all}
use ldd_samples.LabChar.Plain.{plain_all}
use ldd_samples.LabChar.Refines.{perform_all-plain}

abbrev memory : Mem
memory a = a + 1

abbrev disk : Disk
disk = record { ramdisk = λ a. 0; user = memory; f_pos = 65530 }

abbrev ops : List Op
ops = writes 0 10 ∷ seeks (2 ^ 64 - 4) 1 ∷ reads 100 3 ∷ seeks (2 ^ 64 - 9) 0 ∷ []

-- The write meets the end, and a seek to before the start goes there too.
ops_run :
    (perform_all whole_copy whole_copy disk ops).1 ≡ ret 6 ∷ ret 65532 ∷ ret 3 ∷ ret 65536 ∷ []
unfolding perform_all whole_copy
ops_run = refl

perform_all-plain_example :
    (perform_all whole_copy (short_copy 4) disk ops ≡ plain_all whole_copy (short_copy 4) disk ops)
    × ((perform_all whole_copy (short_copy 4) disk ops).0.f_pos ≤ ramdisk_size)
perform_all-plain_example =
    perform_all-plain whole_copy (short_copy 4) whole_copy-IsCopy (short_copy-IsCopy 4) disk ops
      (omega arith) (omega arith, (omega arith, tt))

abbrev past : Disk
past = record { ramdisk = memory; user = λ a. 0; f_pos = 65540 }

whole_nothing : (whole_copy past.user 7 past.ramdisk past.f_pos 5).1 ≡ 0
unfolding whole_copy
whole_nothing = refl
