-- ===== src/Scullc/Control.antt =====
-- `scullc_trim`, `scullc_open` and `scullc_llseek` of io/lab6_aio.c.
pub mod Laws
use native.Mathlib.Omega.{arith}
use ldd_samples.Prelude.{◌≡◌, ℕ, ◌%◌, Bool, none, some, [], ◌∷◌, not, ◌==◌, if◌then◌else◌}
use ldd_samples.Kernel.{Ret, ret, fail, einval, ebusy, restartsys}
use ldd_samples.Kernel.Word.{add64, is_negative64}
use ldd_samples.Scullc.Store.{Dev, Params}

-- `scullc_trim`: a mapped device is left alone; any other is emptied, and takes the parameters of
-- now.
pub trim : Params → Dev → Dev × Ret
trim params d = if not (d.vmas == 0) then (d, fail ebusy) else (
  record {
    items = none ∷ [];
    vmas = d.vmas;
    quantum = params.scullc_quantum;
    qset = params.scullc_qset;
    size = 0;
  },
  ret 0,
)

-- `O_ACCMODE` and `O_WRONLY`: the low two bits of the flags, and their value 1.
pub open_dev : Params → (interrupted : Bool) → (f_flags : ℕ) → Dev → Dev × Ret
unfolding trim
open_dev params interrupted f_flags d =
    if not (f_flags % 4 == 1)
    then (d, ret 0)
    else if interrupted
    then (d, fail restartsys)
    else ((trim params d).0, ret 0)

pub llseek : Dev → (f_pos off whence : ℕ) → ℕ × Ret
llseek d f_pos off whence =
    let newpos =
      if whence == 0
      then some off
      else if whence == 1
      then some (add64 f_pos off)
      else if whence == 2
      then some (add64 d.size off)
      else none in
    elim newpos [
      | none ↦ (f_pos, fail einval)
      | some p ↦ if is_negative64 p then (f_pos, fail einval) else (p, ret p)
    ]

pub quantum-trim :
    (params : Params) (d : Dev) → d.vmas ≡ 0 → (trim params d).0.quantum ≡ params.scullc_quantum
unfolding trim
quantum-trim params d unmapped = ground arith
