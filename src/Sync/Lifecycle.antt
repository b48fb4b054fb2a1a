-- ===== src/Sync/Lifecycle.antt =====
-- `chardrv_init` and `chardrv_exit` of sync/sync_lab3_spinlock.c as the calls that they make. What the kernel
-- answers is a parameter; `kthread_run` is taken to answer NULL where it fails, as the source does.
use ldd_samples.Prelude.{List, [], ◌∷◌, ◌++◌, ◌≡◌, ◌≢◌, ◌⊎◌, Bool, none, some, arith, if◌then◌else◌}
use ldd_samples.Kernel.{Ret, ret, fail, eperm}
use ldd_samples.Kernel.Ledger.{
  chrdev_region, dev_class, device, buffer, thread, Effect, acquire, release, replay,
}

pub record Answers : Type 0 where
  pub register_chrdev : Ret
  pub class_create : Ret
  pub device_create : Ret
  pub kmalloc : Bool
  pub thread1 : Bool
  pub thread2 : Bool

-- The two threads: a failure cleans up, and the init goes on and returns 0.
init_threads : Bool → Bool → List Effect
init_threads thread1 thread2 =
    (if thread1
      then acquire thread ∷ []
      else release buffer ∷ release device ∷ release dev_class ∷ release chrdev_region ∷ [])
    ++ (if thread2
        then acquire thread ∷ []
        else release buffer
          ∷ release thread
          ∷ release device
          ∷ release dev_class
          ∷ release chrdev_region
          ∷ [])

init_buffer : Answers → List Effect × Ret
unfolding init_threads
init_buffer k =
    if k.kmalloc
    then (acquire buffer ∷ init_threads k.thread1 k.thread2, ret 0)
    else (release device ∷ release dev_class ∷ release chrdev_region ∷ [], fail eperm)

init_device : Ret → Answers → List Effect × Ret
unfolding init_buffer
init_device (fail e) k = (release dev_class ∷ release chrdev_region ∷ [], fail e)
init_device (ret _) k = let (effects, r) = init_buffer k in (acquire device ∷ effects, r)

init_class : Ret → Answers → List Effect × Ret
unfolding init_device
init_class (fail e) k = (release chrdev_region ∷ [], fail e)
init_class (ret _) k =
    let (effects, r) = init_device k.device_create k in (acquire dev_class ∷ effects, r)

init_region : Ret → Answers → List Effect × Ret
unfolding init_class
init_region (fail e) k = ([], fail e)
init_region (ret _) k =
    let (effects, r) = init_class k.class_create k in (acquire chrdev_region ∷ effects, r)

unfoldable pub init : Answers → List Effect × Ret
unfolding init_region
init k = init_region k.register_chrdev k

-- `class_unregister` and `class_destroy` each take the class's registration back.
unfoldable pub exit : List Effect
exit =
    release buffer
    ∷ release thread
    ∷ release thread
    ∷ release device
    ∷ release dev_class
    ∷ release dev_class
    ∷ release chrdev_region
    ∷ []

-- Whatever the kernel answers, an init that fails has released all that it held; one that returns 0 holds everything if both threads run, only the second thread if the first does not, nothing if the
-- second does not; and if neither runs it has released what it does not hold.
pub sync_init-holdings :
    (k : Answers)
    → ((init k).1 ≡ ret 0)
        × (replay (init k).0 [] ≡ (
            if k.thread1
            then (if k.thread2
                then some (thread ∷ thread ∷ buffer ∷ device ∷ dev_class ∷ chrdev_region ∷ [])
                else some [])
            else if k.thread2
            then some (thread ∷ [])
            else none))
      ⊎ (((init k).1 ≢ ret 0) × (replay (init k).0 [] ≡ some []))
unfolding init
sync_init-holdings k = ground arith
