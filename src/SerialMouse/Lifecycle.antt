-- ===== src/SerialMouse/Lifecycle.antt =====
-- `my_init` and `my_exit` of hardware/lab4_serial.c as the calls that they make. What the kernel answers is a
-- parameter; the result of `cdev_add` is not looked at, and it is taken to succeed.
use ldd_samples.Prelude.{
  ◌≡◌, ◌⊎◌, Bool, true, false, none, some, List, [], ◌∷◌, ◌++◌, arith, if◌then◌else◌,
}
use ldd_samples.Kernel.{Ret, ret, fail, eperm}
use ldd_samples.Kernel.Ledger.{
  irq, io_region, cdev, chrdev_region, Effect, acquire, release, replay,
}

pub record Answers : Type 0 where
  pub request_irq : Bool
  pub request_region : Bool
  pub register_chrdev_region : Bool
  pub cdev_alloc : Bool

init_cdev : Bool → List Effect × Ret
init_cdev true = (acquire cdev ∷ [], ret 0)
init_cdev false = (release chrdev_region ∷ [], fail eperm)

init_device : Bool → Bool → List Effect × Ret
unfolding init_cdev
init_device false cdev_alloc = ([], fail eperm)
init_device true cdev_alloc =
    let (effects, r) = init_cdev cdev_alloc in (acquire chrdev_region ∷ effects, r)

unfoldable pub init : Answers → List Effect × Ret
unfolding init_device
init k =
    let (effects, r) = init_device k.register_chrdev_region k.cdev_alloc in
    if k.request_irq
    then (acquire irq ∷ (if k.request_region then acquire io_region ∷ effects else effects), r)
    else ([], fail eperm)

unfoldable pub exit : List Effect
exit = release chrdev_region ∷ release io_region ∷ release irq ∷ []

-- A load that gets the interrupt and fails leaves it, and the ports if it got them, with the kernel. One that
-- succeeds and the unload after it leave the cdev, where the ports were free; where they were another driver's,
-- the unload gives up ports that the module does not hold.
pub serial_init-exit :
    (k : Answers)
    → k.request_irq ≡ true
    → (((init k).1 ≡ fail eperm)
        × (replay (init k).0 []
            ≡ some (if k.request_region then io_region ∷ irq ∷ [] else irq ∷ [])))
      ⊎ (((init k).1 ≡ ret 0)
          × (replay ((init k).0 ++ exit) []
              ≡ (if k.request_region then some (cdev ∷ []) else none)))
unfolding init exit
serial_init-exit k on = ground arith
