-- ===== src/LabChar/Lifecycle.antt =====
-- `my_generic_init` and `my_generic_exit` of io/lab_char.h as the resources that they take and give back.
use ldd_samples.Prelude.{List, [], ◌∷◌, ◌++◌, ◌≡◌, Bool, some, arith, not, if◌then◌else◌}
use ldd_samples.Kernel.{Ret, ret, fail, eperm}
use ldd_samples.Kernel.Ledger.{
  Resource, chrdev_region, cdev, buffer, dev_class, device, Effect, acquire, release, replay,
}

-- Whether `alloc_chrdev_region`, `cdev_alloc`, `kmalloc` and `cdev_add` succeed.
pub record Answers : Type 0 where
  pub region : Bool
  pub cdev_alloc : Bool
  pub kmalloc : Bool
  pub cdev_add : Bool

-- `kmalloc` and `kfree` of the ramdisk: nobody looks whether it is there, and `kfree(NULL)` does nothing.
take_ramdisk : Bool → List Effect
take_ramdisk got = if got then acquire buffer ∷ [] else []

free_ramdisk : Bool → List Effect
free_ramdisk got = if got then release buffer ∷ [] else []

add_cdev : Answers → List Effect × Ret
unfolding free_ramdisk
add_cdev k =
    if k.cdev_add
    then (acquire dev_class ∷ acquire device ∷ [], ret 0)
    else (release cdev ∷ release chrdev_region ∷ free_ramdisk k.kmalloc, fail eperm)

unfoldable pub init : Answers → List Effect × Ret
unfolding add_cdev take_ramdisk
init k =
    let (effects, r) = add_cdev k in
    if not k.region
    then ([], fail eperm)
    else if not k.cdev_alloc
    then (acquire chrdev_region ∷ release chrdev_region ∷ [], fail eperm)
    else (acquire chrdev_region ∷ acquire cdev ∷ (take_ramdisk k.kmalloc ++ effects), r)

unfoldable pub exit : Bool → List Effect
unfolding free_ramdisk
exit got =
    release device ∷ release dev_class ∷ release cdev ∷ release chrdev_region ∷ free_ramdisk got

-- What is held when `my_generic_init` has returned.
abbrev pub holdings : Answers → Ret → List Resource
holdings k (ret _) =
    if k.kmalloc
    then device ∷ dev_class ∷ buffer ∷ cdev ∷ chrdev_region ∷ []
    else device ∷ dev_class ∷ cdev ∷ chrdev_region ∷ []
holdings k (fail _) = []

-- Whatever the kernel answers, my_generic_init releases only what it holds; if it fails it has released all
-- of it; if it succeeds it holds the region, the cdev, the class and the device, and the ramdisk if there
-- was memory for it.
pub init-holdings : (k : Answers) → replay (init k).0 [] ≡ some (holdings k (init k).1)
unfolding init
init-holdings k = ground arith

-- The unload after a load that succeeded releases everything.
pub init-exit :
    (k : Answers) → (init k).1 ≡ ret 0 → replay ((init k).0 ++ exit k.kmalloc) [] ≡ some []
unfolding init exit
init-exit k success = ground arith
