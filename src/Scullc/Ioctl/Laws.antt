-- ===== src/Scullc/Ioctl/Laws.antt =====
-- What the commands of `scullc_ioctl` (io/lab6_aio.c) do to the parameters and to devices made with
-- them.
use ldd_samples.Prelude.{ℕ, ◌^◌, ◌<◌, ◌≡◌, ◌≢◌, ◌⊎◌, ◌∙◌, Bool, false, arith}
use ldd_samples.Kernel.{ret, fail, enotty, efault}
use ldd_samples.Kernel.Memory.{Mem, CopyFn}
use ldd_samples.Kernel.Ioctl.{ioc_type, ioc_nr}
use ldd_samples.Scullc.Store.{Params, Dev, oops}
use ldd_samples.Scullc.Io.{Memory, do_write}
use ldd_samples.Scullc.Control.{trim, quantum-trim}
use ldd_samples.Scullc.Io.Aio.{do_write-zero}
use ldd_samples.Scullc.Ioctl.{
  magic, max_nr, set_quantum, tell_quantum, query_quantum, exchange_quantum, shift_quantum, UserInt,
  ioctl,
}

-- What is documented of `__get_user`: on a fault the variable is set to 0. And a value that was put
-- is got again from the same address.
pub record IsUserInt (u : UserInt) : Type 0 where
  pub cleared :
      (user : Mem) (a : ℕ) → (u.get_user user a).1 ≡ fail efault → (u.get_user user a).0 ≡ 0
  pub put_get :
      (user : Mem) (a v : ℕ)
      → (u.put_user user a v).1 ≡ ret 0
      → u.get_user (u.put_user user a v).0 a ≡ (v, ret 0)

module _ {u : UserInt} (is_user : IsUserInt u) (p : Params) (user : Mem) (arg : ℕ) where
  -- A command of another type, or with a number above the last one, changes nothing.
  pub ioctl-unknown :
      (cmd : ℕ)
      → (ioc_type cmd ≢ magic) ⊎ (max_nr < ioc_nr cmd)
      → ioctl u p user cmd arg ≡ (p, user, fail enotty)
  unfolding ioctl
  ioctl-unknown cmd bad = ground arith

  -- A value below 2 ^ 31 that is told comes back from a query and, by a shift, together with the
  -- change to the next one.
  pub tell-query :
      (next : ℕ)
      → arg < 2 ^ 31
      → ((ioctl u (ioctl u p user tell_quantum arg).0 user query_quantum 0).2 ≡ ret arg)
        × ((ioctl u (ioctl u p user tell_quantum arg).0 user shift_quantum next).2 ≡ ret arg)
        × ((ioctl u p user tell_quantum arg).0.scullc_qset ≡ p.scullc_qset)
  unfolding ioctl
  tell-query next small = ground arith

  -- An exchange of the quantum whose two accesses succeed is undone by a second one at the same
  -- address: the parameters are the old ones again.
  pub exchange-exchange :
      (u.get_user user arg).1 ≡ ret 0
      → (ioctl u p user exchange_quantum arg).2 ≡ ret 0
      → (ioctl u
          (ioctl u p user exchange_quantum arg).0
          (ioctl u p user exchange_quantum arg).1
          exchange_quantum
          arg).0
        ≡ p
  unfolding ioctl
  exchange-exchange got done = ground (arith, is_user.put_get user arg p.scullc_quantum)

  fault_clears :
      (u.get_user user arg).1 ≡ fail efault
      → ((ioctl u p user set_quantum arg).0.scullc_quantum ≡ 0)
        × ((ioctl u p user set_quantum arg).2 ≡ fail efault)
  unfolding ioctl
  fault_clears fault = ground (arith, is_user.cleared user arg)

  -- A set command of the quantum whose pointer faults returns EFAULT and leaves a quantum of 0; a
  -- device that is not mapped and is trimmed then faults at the next write that is not interrupted,
  -- whatever the position.
  pub set-fault_oops :
      (d : Dev) (copy : CopyFn) (aio : Bool) (memory : Memory) (mem : Mem) (pos buf count : ℕ)
      → (u.get_user user arg).1 ≡ fail efault
      → d.vmas ≡ 0
      → ((ioctl u p user set_quantum arg).2 ≡ fail efault)
        × (do_write copy
              (ioctl u p user set_quantum arg).0
              aio
              false
              memory
              (record {
                dev = (trim (ioctl u p user set_quantum arg).0 d).0;
                user = mem;
                pos = pos;
              })
              buf
              count
            ≡ oops)
  set-fault_oops d copy aio memory mem pos buf count fault unmapped =
      let set = fault_clears fault in
      (
        set.1,
        do_write-zero copy (ioctl u p user set_quantum arg).0 memory aio _ buf count
            (quantum-trim _ d unmapped ∙ set.0),
      )
