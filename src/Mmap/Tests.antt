-- ===== src/Mmap/Tests.antt =====
-- A mapping of the second page of the buffer.
use ldd_samples.Prelude.{◌≡◌, refl, true, some, arith}
use ldd_samples.Kernel.{ret}
use ldd_samples.Kernel.Memory.{Mem, whole_copy, whole_copy-IsCopy}
use ldd_samples.EarlyChar.Seek.{Call, read}
use ldd_samples.Mmap.Mapping.{Vma, Mapping, mmap}
use ldd_samples.Mmap.Sharing.{IsVma, store, over_ram, store-read}

abbrev page_two : Vma
page_two = record { vm_start = 0x10000; vm_end = 0x11000; vm_pgoff = 1 }

abbrev mapped : Mapping
mapped = record { start = 0x10000; pfn = 0x101; len = 4096 }

page_two-IsVma : IsVma page_two
page_two-IsVma = record {
  ordered = (omega arith, omega arith);
  paged = (refl, refl);
  near = omega arith;
}

page_two-mapped : mmap 0x100000 true page_two ≡ (some mapped, ret 0)
unfolding mmap
page_two-mapped = refl

abbrev zeros : Mem
zeros i = 0

abbrev at_page_two : Call
at_page_two = record {
  dev = record { membuff = zeros; ioc_data = zeros; counter = 1 };
  user = zeros;
  pos = 0x1000;
}

store-read_example :
    (read whole_copy (over_ram at_page_two (store zeros 0x101010 9) 0x100000) 64 32).0.user 80 ≡ 9
unfolding whole_copy
store-read_example =
    store-read whole_copy-IsCopy 0x100000 page_two mapped page_two-IsVma refl page_two-mapped
      at_page_two zeros 0x10010 9 64 32 (omega arith) (omega arith) (omega arith) (omega arith)
      (omega arith)
