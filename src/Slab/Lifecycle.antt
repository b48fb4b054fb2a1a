-- ===== src/Slab/Lifecycle.antt =====
-- `chardrv_init` and `chardrv_exit` of memory/memory_lab2_cache.c as the calls that they make. What the kernel
-- answers is a parameter, and so is the module's parameter `size`, a pattern of an `int`.
use ldd_samples.Prelude.{ℕ, ◌*◌, List, [], ◌∷◌, ◌≡◌, Bool, some, arith, ltb, if◌then◌else◌}
use ldd_samples.Kernel.{Ret, ret, fail, eperm, enomem}
use ldd_samples.Kernel.Word.{extend_int}
use ldd_samples.Kernel.Ledger.{
  Resource, chrdev_region, dev_class, device, slab_cache, Effect, acquire, release, replay,
}

pub record Answers : Type 0 where
  pub register_chrdev : Ret
  pub class_create : Ret
  pub device_create : Ret
  pub kmem_cache_create : Bool

-- `size > (1024 * PAGE_SIZE)`, which compares without sign, with pages of 4096 bytes.
abbrev pub too_large : (size : ℕ) → Bool
too_large size = ltb (1024 * 4096) (extend_int size)

init_cache : ℕ → Bool → List Effect × Ret
init_cache size created =
    if too_large size
    then (release device ∷ release dev_class ∷ release chrdev_region ∷ [], fail eperm)
    else if created
    then (acquire slab_cache ∷ [], ret 0)
    else (release device ∷ release dev_class ∷ release chrdev_region ∷ [], fail enomem)

init_device : ℕ → Ret → Bool → List Effect × Ret
unfolding init_cache
init_device size (fail e) created = (release dev_class ∷ release chrdev_region ∷ [], fail e)
init_device size (ret _) created =
    let (effects, r) = init_cache size created in (acquire device ∷ effects, r)

init_class : ℕ → Ret → Ret → Bool → List Effect × Ret
unfolding init_device
init_class size (fail e) device_create created = (release chrdev_region ∷ [], fail e)
init_class size (ret _) device_create created =
    let (effects, r) = init_device size device_create created in (acquire dev_class ∷ effects, r)

init_region : ℕ → Answers → List Effect × Ret
unfolding init_class
init_region size k = elim k.register_chrdev [
  | fail e ↦ ([], fail e)
  | ret _ ↦
      (let (effects, r) = init_class size k.class_create k.device_create k.kmem_cache_create in
        (acquire chrdev_region ∷ effects, r))
]

unfoldable pub init : (size : ℕ) → Answers → List Effect × Ret
unfolding init_region
init size k = init_region size k

-- `class_unregister` and `class_destroy` each take the class's registration back.
unfoldable pub exit : List Effect
exit =
    release device
    ∷ release dev_class
    ∷ release dev_class
    ∷ release chrdev_region
    ∷ release slab_cache
    ∷ []

-- What the module holds after `chardrv_init` returned.
abbrev pub holdings : Ret → List Resource
holdings (fail e) = []
holdings (ret _) = slab_cache ∷ device ∷ dev_class ∷ chrdev_region ∷ []

-- Whatever the kernel answers and whatever the size is, an init that fails has released all that it held, and one
-- that succeeds holds the region, the class, the device and the cache.
pub slab_init-holdings :
    (size : ℕ) (k : Answers) → replay (init size k).0 [] ≡ some (holdings (init size k).1)
unfolding init
slab_init-holdings size k = ground arith
