-- ===== src/Scullc/Control/Laws.antt =====
-- `scullc_trim`, `scullc_open` and `scullc_llseek` of io/lab6_aio.c.
use ldd_samples.Prelude.{ℕ, ◌%◌, ◌^◌, ◌<◌, ◌≡◌, ◌≢◌, ◌⊎◌, Bool, true, false, arith}
use ldd_samples.Kernel.{ret, fail, einval}
use ldd_samples.Scullc.Store.{Dev, Params}
use ldd_samples.Scullc.Store.Locate.{IsShaped}
use ldd_samples.Scullc.Io.Write.{contents, IsReady}
use ldd_samples.Scullc.Control.{trim, open_dev, llseek}

-- The trim of a device that is not mapped returns 0 and leaves one that has no bytes and is fit for
-- reading and writing with the parameters of now, if they are positive, the quantum is below 2 ^ 31
-- and an item's bytes fit an `int`.
pub trim-IsReady :
    (params : Params) (d : Dev) (p : ℕ)
    → d.vmas ≡ 0
    → IsShaped params.scullc_quantum params.scullc_qset
    → params.scullc_quantum < 2 ^ 31
    → ((trim params d).1 ≡ ret 0)
      × ((trim params d).0.size ≡ 0)
      × (contents (trim params d).0 p ≡ 0)
      × IsReady params (trim params d).0
unfolding trim
trim-IsReady params d p unmapped shaped small = ground arith

-- An open that is not for writing alone, or whose wait for the device is interrupted, or of a device
-- that is mapped, leaves the device as it is.
pub open-kept :
    (params : Params) (interrupted : Bool) (f_flags : ℕ) (d : Dev)
    → (f_flags % 4 ≢ 1) ⊎ ((interrupted ≡ true) ⊎ (d.vmas ≢ 0))
    → (open_dev params interrupted f_flags d).0 ≡ d
unfolding open_dev
open-kept params interrupted f_flags d why = ground arith

-- An open for writing alone empties a device that is not mapped.
pub open-emptied :
    (params : Params) (f_flags p : ℕ) (d : Dev)
    → f_flags % 4 ≡ 1
    → d.vmas ≡ 0
    → ((open_dev params false f_flags d).1 ≡ ret 0)
      × ((open_dev params false f_flags d).0.size ≡ 0)
      × (contents (open_dev params false f_flags d).0 p ≡ 0)
unfolding open_dev
open-emptied params f_flags p d wronly unmapped = ground arith

-- No call of llseek leaves a negative position where there was none: it is refused with the position
-- kept, or the result is the new position.
pub llseek-nonnegative :
    (d : Dev) (f_pos off whence : ℕ)
    → f_pos < 2 ^ 63
    → off < 2 ^ 64
    → ((llseek d f_pos off whence).0 < 2 ^ 63)
      × ((llseek d f_pos off whence ≡ (f_pos, fail einval))
          ⊎ ((llseek d f_pos off whence).1 ≡ ret (llseek d f_pos off whence).0))
unfolding llseek
llseek-nonnegative d f_pos off whence was fits = ground arith
