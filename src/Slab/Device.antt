-- ===== src/Slab/Device.antt =====
-- `chardrv_open`, `chardrv_release`, `chardrv_read` and `chardrv_write` of memory/memory_lab2_cache.c.
use ldd_samples.Prelude.{ℕ, Option, none, some, List, [], ◌∷◌, ltb, ◌==◌, if◌then◌else◌}
use ldd_samples.Kernel.{Ret, ret, fail, enomem}
use ldd_samples.Kernel.Word.{add64, sub64, to_int, extend_int}
use ldd_samples.Kernel.Memory.{Mem, CopyFn}

-- `membuff`, which is NULL or an object's address, and the objects of `ldd_cache` that are allocated.
pub record Cache : Type 0 where
  pub membuff : Option ℕ
  pub live : List ℕ

-- `kmem_cache_alloc` answers with an object or with NULL.
unfoldable pub open_dev : (answer : Option ℕ) → Cache → Cache × Ret
open_dev none c = (record c { membuff = none }, fail enomem)
open_dev (some object) c = (record { membuff = some object; live = object ∷ c.live }, ret 0)

-- Takes an object out of those allocated; `none` if it is not among them.
abbrev pub free_object : ℕ → List ℕ → Option (List ℕ)
free_object object [] = none
free_object object (o ∷ live) =
    if o == object
    then some live
    else elim (free_object object live) [ none ↦ none | some rest ↦ some (o ∷ rest) ]

-- `kmem_cache_free` of `membuff`; `none` where that is no allocated object. `membuff` keeps its value.
unfoldable pub release : Cache → Option (Cache × Ret)
release c = elim c.membuff [
  | none ↦ none
  | some object ↦ elim (free_object object c.live) [
    | none ↦ none
    | some rest ↦ some (record c { live = rest }, ret 0)
  ]
]

-- The opens and releases of all processes, in their order; an open comes with what the allocator answers.
pub data Op : Type 0 where
  opening : (answer : Option ℕ) → Op
  releasing : Op

unfoldable pub perform_all : List Op → Cache → Option Cache
unfolding open_dev release
perform_all [] c = some c
perform_all (opening answer ∷ ops) c = perform_all ops (open_dev answer c).0
perform_all (releasing ∷ ops) c = elim (release c) [
  | none ↦ none
  | some (c', r) ↦ perform_all ops c'
]

-- The object that a call reads and writes, the caller's memory, and the position.
pub record Call : Type 0 where
  pub object : Mem
  pub user : Mem
  pub pos : ℕ

-- `membuff_size` is the module's parameter `size`.
unfoldable pub read : CopyFn → (membuff_size : ℕ) → Call → (buf lbuf : ℕ) → Call × Ret
read copy_to_user membuff_size c buf lbuf =
    if ltb membuff_size (add64 lbuf c.pos)
    then (c, ret 0)
    else let (user, left) = copy_to_user c.user buf c.object c.pos lbuf in
      let rbytes = extend_int (to_int (sub64 lbuf left)) in
      (record c { user = user; pos = add64 c.pos rbytes }, ret rbytes)

unfoldable pub write : CopyFn → (membuff_size : ℕ) → Call → (buf lbuf : ℕ) → Call × Ret
write copy_from_user membuff_size c buf lbuf =
    if ltb membuff_size (add64 lbuf c.pos)
    then (c, ret 0)
    else let (object, left) = copy_from_user c.object c.pos c.user buf lbuf in
      let wbytes = extend_int (to_int (sub64 lbuf left)) in
      (record c { object = object; pos = add64 c.pos wbytes }, ret wbytes)
