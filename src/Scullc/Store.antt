-- ===== src/Scullc/Store.antt =====
-- The data of a device of io/scullc.h: a chain of items, each with an array of `qset` pointers to
-- quanta of `quantum` bytes; `scullc_follow` and the arithmetic of places of io/lab6_aio.c. An `int`
-- has 32 bits, a `long`, a `size_t` and a `loff_t` have 64.
pub mod Locate
pub mod Chain
use ldd_samples.Prelude.{
  ℕ, zero, suc, ◌+◌, ◌-◌, ◌*◌, ◌%◌, ◌^◌, Bool, true, false, Option, none, some, List, [], ◌∷◌, ltb,
  leb, not, ◌==◌, ◌||◌, if◌then◌else◌,
}
use ldd_samples.Kernel.{Ret, ret, fail, Errno, einval, enomem, efault, ebusy, restartsys}
use ldd_samples.Kernel.Word.{add64, sub64, to_int, extend_int, is_negative64, div64, rem64}
use ldd_samples.Kernel.Memory.{Mem, CopyFn, memcpy, memset}

-- `dptr->data`: NULL, or an array of pointers to quanta, of which some are NULL. A quantum is memory
-- from its first byte on, with what lies behind it.
abbrev pub Pointers : Type 0
Pointers = ℕ → Option Mem

abbrev pub Item : Type 0
Item = Option Pointers

-- `struct scullc_dev` with the chain behind it: the first item is the device's own.
pub record Dev : Type 0 where
  pub items : List Item
  pub vmas : ℕ
  pub quantum : ℕ
  pub qset : ℕ
  pub size : ℕ

-- The module's parameters.
pub record Params : Type 0 where
  pub scullc_quantum : ℕ
  pub scullc_qset : ℕ

-- What a run of an entry point comes to: an oops of the kernel (a division by zero, a write through
-- NULL), or a result.
pub data Run (A : Type 0) : Type 0 where
  oops : Run A
  done : A → Run A

-- `scullc_follow`: the chain long enough to have item `n`. Where it has to grow and `kmalloc` gives
-- NULL, the `memset` that follows faults.
unfoldable pub follow : (grows : Bool) → ℕ → List Item → Option (List Item)
follow grows zero items = some items
follow grows (suc n) [] = none
follow grows (suc n) (x ∷ []) =
    let rest = follow grows n (none ∷ []) in
    if grows then (elim rest [ none ↦ none | some xs ↦ some (x ∷ xs) ]) else none
follow grows (suc n) (x ∷ y ∷ items) = elim (follow grows n (y ∷ items)) [
  | none ↦ none
  | some xs ↦ some (x ∷ xs)
]

-- Where a position lies: `item`, `s_pos` and `q_pos`.
pub record Place : Type 0 where
  pub item : ℕ
  pub s_pos : ℕ
  pub q_pos : ℕ

-- The place for an item size; `none` where a divisor is zero.
unfoldable pub place_in : (quantum itemsize f_pos : ℕ) → Option Place
place_in quantum itemsize f_pos =
    let rest = to_int (rem64 f_pos (extend_int itemsize)) in
    if itemsize == 0 || quantum == 0
    then none
    else some (record {
      item = to_int (div64 f_pos (extend_int itemsize));
      s_pos = to_int (div64 (extend_int rest) (extend_int quantum));
      q_pos = to_int (rem64 (extend_int rest) (extend_int quantum));
    })

unfoldable pub locate : (quantum qset f_pos : ℕ) → Option Place
unfolding place_in
locate quantum qset f_pos = place_in quantum (to_int (quantum * qset)) f_pos

-- The quantum at a place; `none` for a hole.
abbrev pub quantum_at : List Item → (item s_pos : ℕ) → Option Mem
quantum_at [] item s_pos = none
quantum_at (none ∷ items) zero s_pos = none
quantum_at (some pointers ∷ items) zero s_pos = pointers s_pos
quantum_at (x ∷ items) (suc item) s_pos = quantum_at items item s_pos

-- The chain with a quantum put in place. The item has an array by then.
abbrev pub put_pointer : Item → ℕ → Mem → Item
put_pointer none s_pos q = none
put_pointer (some pointers) s_pos q = some (λ s. if s == s_pos then some q else pointers s)

abbrev pub put_quantum : List Item → (item s_pos : ℕ) → Mem → List Item
put_quantum [] item s_pos q = []
put_quantum (x ∷ items) zero s_pos q = put_pointer x s_pos q ∷ items
put_quantum (x ∷ items) (suc item) s_pos q = x ∷ put_quantum items item s_pos q

-- `dptr->data` set to a fresh array of NULL pointers.
abbrev pub put_array : List Item → ℕ → List Item
put_array [] item = []
put_array (x ∷ items) zero = some (λ s. none) ∷ items
put_array (x ∷ items) (suc item) = x ∷ put_array items item

abbrev pub has_array : List Item → ℕ → Bool
has_array [] item = false
has_array (none ∷ items) zero = false
has_array (some pointers ∷ items) zero = true
has_array (x ∷ items) (suc item) = has_array items item
