-- ===== src/Scullc/Tests.antt =====
-- Runs of io/lab6_aio.c at concrete inputs.
use ldd_samples.Prelude.{ℕ, ltb, min}
use ldd_samples.Scullc.Lifecycle.{Answers}
use ldd_samples.Scullc.Defer.{IterOps, IsIter}
use ldd_samples.Prelude.{
  ◌+◌, ◌≡◌, refl, true, false, none, some, [], ◌∷◌, arith, ◌==◌, if◌then◌else◌,
}
use ldd_samples.Kernel.{ret, fail, efault}
use ldd_samples.Kernel.Memory.{Mem, whole_copy, whole_copy-IsCopy}
use ldd_samples.Scullc.Store.{Dev, Params, done, Pointers}
use ldd_samples.Scullc.Store.Locate.{IsShaped}
use ldd_samples.Scullc.Io.{Call, Memory, do_read, do_write}
use ldd_samples.Scullc.Io.Write.{IsWhole, IsReady, IsAppended, reached, do_write-IsAppended}
use ldd_samples.Scullc.Io.Read.{IsReadable, do_read-bytes}
use ldd_samples.Scullc.Ioctl.{UserInt}
use ldd_samples.Scullc.Ioctl.Laws.{IsUserInt}

abbrev memory : Memory
memory = record { grows = true; array = true; quantum = true; garbage = λ a. 99 }

-- Two items of three quanta of ten bytes could lie here; only the quantum of the positions 10 to 19
-- does.
abbrev second : Pointers
second s = if s == 1 then some (λ i. i + 50) else none

abbrev dev : Dev
dev = record { items = some second ∷ []; vmas = 0; quantum = 10; qset = 3; size = 18 }

abbrev params : Params
params = record { scullc_quantum = 10; scullc_qset = 3 }

abbrev user : Mem
user a = a + 1

abbrev at_12 : Call
at_12 = record { dev = dev; user = user; pos = 12 }

abbrev at_47 : Call
at_47 = record { dev = dev; user = user; pos = 47 }

abbrev at_3 : Call
at_3 = record { dev = dev; user = user; pos = 3 }

whole_copy-IsWhole : IsWhole whole_copy
unfolding whole_copy
whole_copy-IsWhole dst to src from n = refl

shaped : IsShaped 10 3
shaped = record { quantum_pos = omega arith; qset_pos = omega arith; small = omega arith }

dev-IsReady : IsReady params dev
dev-IsReady = record {
  shaped = shaped;
  first = λ e. cc;
  cleared = omega arith;
  small = omega arith;
}

dev-IsReadable : IsReadable dev
dev-IsReadable = record { shaped = shaped; first = λ e. cc; small = omega arith }

do_write-IsAppended_example :
    (c' : Call) × (do_write whole_copy params true false memory at_47 100 8
      ≡ done (c', fail efault))
    × IsAppended true at_47 100 3 48 c'
do_write-IsAppended_example =
    do_write-IsAppended whole_copy-IsCopy whole_copy-IsWhole params memory (refl, refl, refl) true
      at_47 dev-IsReady 100 8 48 (omega arith)

do_read-bytes_example :
    (c' : Call) × (do_read whole_copy true false memory at_12 200 100 ≡ done (c', fail efault))
    × (c'.pos ≡ 12)
    × (c'.dev ≡ (reached at_12).dev)
    × (c'.user (200 + 5) ≡ 57)
do_read-bytes_example =
    do_read-bytes whole_copy-IsCopy whole_copy-IsWhole memory refl at_12 dev-IsReadable 200 100
      (omega arith) (omega arith) true (λ i. i + 50) 5 refl (omega arith)

-- Integers, one at each address but 0, which faults.
abbrev user_int : UserInt
user_int = record {
  get_user = λ m a. if a == 0 then (0, fail efault) else (m a, ret 0);
  put_user = λ m a v. if a == 0 then (m, fail efault) else (λ b. if b == a then v else m b, ret 0);
}

user_int-IsUserInt : IsUserInt user_int
user_int-IsUserInt = record { cleared = λ m a e. ground arith; put_get = λ m a v e. ground arith }

abbrev no_cache : Answers
no_cache = record { region = ret 0; kmalloc = true; kmem_cache_create = false }

-- An iterator that meets no fault.
abbrev iter : ℕ → IterOps
iter total = record {
  copy_from_iter = λ buf user n. (user, n);
  copy_to_iter = λ user buf n. ((λ i. if ltb i (min n total) then buf i else user i), min n total);
}

iter-IsIter : (total : ℕ) → IsIter (iter total) total
iter-IsIter total = record { count = λ user buf n. refl; copied = λ user buf n i lt. ground arith }
