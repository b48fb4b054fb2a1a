-- ===== src/Scullc/Ioctl.antt =====
-- `scullc_ioctl` of io/lab6_aio.c with the commands of io/scullc.h.
pub mod Laws
use ldd_samples.Prelude.{
  ℕ, ◌+◌, ◌*◌, ◌^◌, zero, suc, Bool, true, false, ltb, not, ◌==◌, ◌||◌, if◌then◌else◌,
}
use ldd_samples.Kernel.{Ret, ret, fail, enotty}
use ldd_samples.Kernel.Word.{to_int, extend_int}
use ldd_samples.Kernel.Memory.{Mem}
use ldd_samples.Kernel.Ioctl.{ioc_type, ioc_nr}
use ldd_samples.Scullc.Store.{Params}

-- `#define SCULLC_IOC_MAGIC 'K'`, `#define SCULLC_IOC_MAXNR 12`
abbrev pub magic : ℕ
magic = b'K'

abbrev pub max_nr : ℕ
max_nr = 12

-- `_IO`, `_IOW`, `_IOR` and `_IOWR` of the magic, a number and an `int`.
abbrev pub plain : ℕ → ℕ
plain nr = magic * 2 ^ 8 + nr

abbrev pub writes_int : ℕ → ℕ
writes_int nr = 1 * 2 ^ 30 + 4 * 2 ^ 16 + magic * 2 ^ 8 + nr

abbrev pub reads_int : ℕ → ℕ
reads_int nr = 2 * 2 ^ 30 + 4 * 2 ^ 16 + magic * 2 ^ 8 + nr

abbrev pub exchanges_int : ℕ → ℕ
exchanges_int nr = 3 * 2 ^ 30 + 4 * 2 ^ 16 + magic * 2 ^ 8 + nr

-- The commands: S by pointer, T by value, G to a pointer, Q as the result, X both by pointer, H both by
-- value.
abbrev pub reset : ℕ
reset = plain 0

abbrev pub set_quantum : ℕ
set_quantum = writes_int 1

abbrev pub tell_quantum : ℕ
tell_quantum = plain 2

abbrev pub get_quantum : ℕ
get_quantum = reads_int 3

abbrev pub query_quantum : ℕ
query_quantum = plain 4

abbrev pub exchange_quantum : ℕ
exchange_quantum = exchanges_int 5

abbrev pub shift_quantum : ℕ
shift_quantum = plain 6

abbrev pub set_qset : ℕ
set_qset = writes_int 7

abbrev pub tell_qset : ℕ
tell_qset = plain 8

abbrev pub get_qset : ℕ
get_qset = reads_int 9

abbrev pub query_qset : ℕ
query_qset = plain 10

abbrev pub exchange_qset : ℕ
exchange_qset = exchanges_int 11

abbrev pub shift_qset : ℕ
shift_qset = plain 12

-- `__get_user` of an `int`: the caller's memory and an address, to what the variable holds then and
-- the result; `__put_user`: memory, address and value, to the memory and the result.
pub record UserInt : Type 0 where
  pub get_user : Mem → ℕ → ℕ × Ret
  pub put_user : Mem → ℕ → ℕ → Mem × Ret

-- The six commands on one parameter, whose value goes in and comes out, by the command's letter.
pub data Letter : Type 0 where
  set tell get query exchange shift : Letter

abbrev pub is_zero : Ret → Bool
is_zero (ret zero) = true
is_zero (ret (suc n)) = false
is_zero (fail e) = false

pub on_parameter : UserInt → Letter → (value : ℕ) → Mem → (arg : ℕ) → ℕ × Mem × Ret
on_parameter u set value user arg = let (v, r) = u.get_user user arg in (v, user, r)
on_parameter u tell value user arg = (to_int arg, user, ret 0)
on_parameter u get value user arg = let (user', r) = u.put_user user arg value in (value, user', r)
on_parameter u query value user arg = (value, user, ret (extend_int value))
on_parameter u exchange value user arg =
    let (v, r) = u.get_user user arg in
    let (user', r') = u.put_user user arg value in
    if is_zero r then (v, user', r') else (v, user, r)
on_parameter u shift value user arg = (to_int arg, user, ret (extend_int value))

on_quantum : UserInt → Letter → Params → Mem → (arg : ℕ) → Params × Mem × Ret
unfolding on_parameter
on_quantum u letter p user arg =
    let (v, user', r) = on_parameter u letter p.scullc_quantum user arg in
    (record p { scullc_quantum = v }, user', r)

on_qset : UserInt → Letter → Params → Mem → (arg : ℕ) → Params × Mem × Ret
unfolding on_parameter
on_qset u letter p user arg =
    let (v, user', r) = on_parameter u letter p.scullc_qset user arg in
    (record p { scullc_qset = v }, user', r)

-- `SCULLC_QUANTUM` and `SCULLC_QSET`
abbrev pub defaults : Params
defaults = record { scullc_quantum = 4000; scullc_qset = 500 }

unfoldable pub ioctl : UserInt → Params → Mem → (cmd arg : ℕ) → Params × Mem × Ret
unfolding on_quantum on_qset
ioctl u p user cmd arg =
    if not (ioc_type cmd == magic)
    then (p, user, fail enotty)
    else if ltb max_nr (ioc_nr cmd)
    then (p, user, fail enotty)
    else if cmd == reset
    then (defaults, user, ret 0)
    else if cmd == set_quantum
    then on_quantum u set p user arg
    else if cmd == tell_quantum
    then on_quantum u tell p user arg
    else if cmd == get_quantum
    then on_quantum u get p user arg
    else if cmd == query_quantum
    then on_quantum u query p user arg
    else if cmd == exchange_quantum
    then on_quantum u exchange p user arg
    else if cmd == shift_quantum
    then on_quantum u shift p user arg
    else if cmd == set_qset
    then on_qset u set p user arg
    else if cmd == tell_qset
    then on_qset u tell p user arg
    else if cmd == get_qset
    then on_qset u get p user arg
    else if cmd == query_qset
    then on_qset u query p user arg
    else if cmd == exchange_qset
    then on_qset u exchange p user arg
    else if cmd == shift_qset
    then on_qset u shift p user arg
    else (p, user, fail enotty)
