-- ===== src/Completion/Lifecycle.antt =====
-- `etx_driver_init` and `etx_driver_exit` of misc/completion_static.c as the resources that they take and
-- give back.
use ldd_samples.Prelude.{
  List, [], ◌∷◌, ◌++◌, ◌≡◌, Bool, true, false, some, arith, ◌&&◌, not, if◌then◌else◌,
}
use ldd_samples.Kernel.{Ret, ret, fail, eperm}
use ldd_samples.Kernel.Ledger.{
  Resource, chrdev_region, cdev, dev_class, device, thread, Effect, acquire, release, replay,
}

-- Which of the calls succeed.
pub record Answers : Type 0 where
  pub region : Bool
  pub cdev_add : Bool
  pub class_create : Bool
  pub device_create : Bool
  pub kthread_create : Bool

-- From `kthread_create` on: a thread that cannot be made is no failure.
start_thread : Bool → List Effect × Ret
start_thread true = (acquire thread ∷ [], ret 0)
start_thread false = ([], ret 0)

-- From `r_class` on.
r_class : List Effect
r_class = release chrdev_region ∷ []

after_class : Answers → List Effect × Ret
unfolding start_thread r_class
after_class k =
    let (effects, r) = start_thread k.kthread_create in
    if k.device_create
    then (acquire device ∷ effects, r)
    else (release dev_class ∷ r_class, fail eperm)

after_cdev : Answers → List Effect × Ret
unfolding after_class r_class
after_cdev k =
    let (effects, r) = after_class k in
    if k.class_create then (acquire dev_class ∷ effects, r) else (r_class, fail eperm)

unfoldable pub init : Answers → List Effect × Ret
unfolding after_cdev r_class
init k =
    let (effects, r) = after_cdev k in
    if not k.region
    then ([], fail eperm)
    else if k.cdev_add
    then (acquire chrdev_region ∷ acquire cdev ∷ effects, r)
    else (acquire chrdev_region ∷ r_class, fail eperm)

unfoldable pub exit : List Effect
exit = release device ∷ release dev_class ∷ release cdev ∷ release chrdev_region ∷ []

-- What is held when `etx_driver_init` has returned.
abbrev pub holdings : Answers → Ret → List Resource
holdings k (ret _) =
    if k.kthread_create
    then thread ∷ device ∷ dev_class ∷ cdev ∷ chrdev_region ∷ []
    else device ∷ dev_class ∷ cdev ∷ chrdev_region ∷ []
holdings k (fail _) = if k.region && k.cdev_add then cdev ∷ [] else []

-- Whatever the kernel answers, the init function releases only what it holds. If it succeeds it holds the
-- region, the cdev, the class and the device, and the thread if there is one; if it fails once the cdev
-- has been added it leaves the cdev behind, and otherwise nothing.
pub init-leaks_cdev : (k : Answers) → replay (init k).0 [] ≡ some (holdings k (init k).1)
unfolding init
init-leaks_cdev k = ground arith

-- A load that succeeds and the unload after it leave the thread behind where there is one.
pub exit-leaves_thread :
    (k : Answers)
    → (init k).1 ≡ ret 0
    → replay ((init k).0 ++ exit) [] ≡ some (if k.kthread_create then thread ∷ [] else [])
unfolding init exit
exit-leaves_thread k success = ground arith
