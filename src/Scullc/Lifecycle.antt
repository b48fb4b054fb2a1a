-- ===== src/Scullc/Lifecycle.antt =====
-- `scullc_setup_cdev`, `scullc_init` and `scullc_cleanup` of io/lab6_aio.c as the calls that they
-- make, for `scullc_devs` devices. The errors of `cdev_add` are reported and no more.
use ldd_samples.Prelude.{
  ℕ, zero, suc, ◌≡◌, ◌∙◌, refl, ap, Bool, true, false, some, List, [], ◌∷◌, ◌++◌, if◌then◌else◌,
}
use ldd_samples.Kernel.{Ret, ret, fail, enomem}
use ldd_samples.Kernel.Ledger.{
  Resource, chrdev_region, cdev, buffer, slab_cache, Effect, acquire, release, replay,
  replay-append,
}

-- What the region's registration returns, and whether `kmalloc` and `kmem_cache_create` succeed.
pub record Answers : Type 0 where
  pub region : Ret
  pub kmalloc : Bool
  pub kmem_cache_create : Bool

-- The calls for each device, before others: `cdev_init` and `cdev_add`, and `cdev_del`. A device that
-- is trimmed at its end has been emptied of its memory.
pub setup_cdevs : ℕ → List Effect → List Effect
setup_cdevs zero rest = rest
setup_cdevs (suc n) rest = acquire cdev ∷ setup_cdevs n rest

pub delete_cdevs : ℕ → List Effect → List Effect
delete_cdevs zero rest = rest
delete_cdevs (suc n) rest = release cdev ∷ delete_cdevs n rest

pub cleanup : (devs : ℕ) → (cache : Bool) → List Effect
unfolding delete_cdevs
cleanup devs cache = delete_cdevs devs (
    release buffer
    ∷ (if cache
        then release slab_cache ∷ release chrdev_region ∷ []
        else release chrdev_region ∷ []))

init_cache : ℕ → Bool → List Effect × Ret
unfolding cleanup
init_cache devs true = (setup_cdevs devs (acquire slab_cache ∷ []), ret 0)
init_cache devs false = (setup_cdevs devs (cleanup devs false), fail enomem)

init_devices : ℕ → Bool → Bool → List Effect × Ret
unfolding init_cache
init_devices devs false kmem_cache_create = (release chrdev_region ∷ [], fail enomem)
init_devices devs true kmem_cache_create =
    let (effects, r) = init_cache devs kmem_cache_create in (acquire buffer ∷ effects, r)

init_region : ℕ → Ret → Bool → Bool → List Effect × Ret
unfolding init_devices
init_region devs (fail e) kmalloc kmem_cache_create = ([], fail e)
init_region devs (ret _) kmalloc kmem_cache_create =
    let (effects, r) = init_devices devs kmalloc kmem_cache_create in
    (acquire chrdev_region ∷ effects, r)

pub init : (devs : ℕ) → Answers → List Effect × Ret
unfolding init_region
init devs k = init_region devs k.region k.kmalloc k.kmem_cache_create

-- A number of character devices over what else is held.
abbrev pub cdevs : ℕ → List Resource → List Resource
cdevs zero held = held
cdevs (suc n) held = cdev ∷ cdevs n held

cdevs-suc : (n : ℕ) (held : List Resource) → cdevs n (cdev ∷ held) ≡ cdev ∷ cdevs n held
cdevs-suc zero held = refl
cdevs-suc (suc n) held = ap (λ h. cdev ∷ h) (cdevs-suc n held)

replay-setup_cdevs :
    (n : ℕ) (rest : List Effect) (held : List Resource)
    → replay (setup_cdevs n rest) held ≡ replay rest (cdevs n held)
unfolding setup_cdevs
replay-setup_cdevs zero rest held = refl
replay-setup_cdevs (suc n) rest held =
    replay-setup_cdevs n rest (cdev ∷ held) ∙ ap (λ h. replay rest h) (cdevs-suc n held)

replay-delete_cdevs :
    (n : ℕ) (rest : List Effect) (held : List Resource)
    → replay (delete_cdevs n rest) (cdevs n held) ≡ replay rest held
unfolding delete_cdevs
replay-delete_cdevs zero rest held = refl
replay-delete_cdevs (suc n) rest held = replay-delete_cdevs n rest held

delete_under_cache :
    (n : ℕ) (rest : List Effect) (held : List Resource)
    → replay (delete_cdevs n rest) (slab_cache ∷ cdevs n held) ≡ replay rest (slab_cache ∷ held)
unfolding delete_cdevs
delete_under_cache zero rest held = refl
delete_under_cache (suc n) rest held = delete_under_cache n rest held

-- What the module holds after `scullc_init` returned.
abbrev pub holdings : ℕ → Ret → List Resource
holdings devs (fail e) = []
holdings devs (ret _) = slab_cache ∷ cdevs devs (buffer ∷ chrdev_region ∷ [])

init_answers :
    (devs : ℕ) (region : Ret) (kmalloc kmem_cache_create : Bool)
    → replay (init_region devs region kmalloc kmem_cache_create).0 []
      ≡ some (holdings devs (init_region devs region kmalloc kmem_cache_create).1)
unfolding init_region cleanup
init_answers devs (fail e) kmalloc cache = refl
init_answers devs (ret n) false cache = refl
init_answers devs (ret n) true true = replay-setup_cdevs devs _ (buffer ∷ chrdev_region ∷ [])
init_answers devs (ret n) true false =
    replay-setup_cdevs devs _ (buffer ∷ chrdev_region ∷ [])
    ∙ replay-delete_cdevs devs _ (buffer ∷ chrdev_region ∷ [])

-- For any number of devices and whatever the kernel answers, scullc_init releases only what it
-- holds; if it fails it has released all of it, and if it succeeds it holds the cache, each device's
-- cdev, the table of devices and the region.
pub scullc_init-holdings :
    (devs : ℕ) (k : Answers) → replay (init devs k).0 [] ≡ some (holdings devs (init devs k).1)
unfolding init
scullc_init-holdings devs k = init_answers devs k.region k.kmalloc k.kmem_cache_create

-- For any number of devices, an init that succeeds and the cleanup after it give everything back.
pub scullc_init-cleanup :
    (devs : ℕ) (k : Answers)
    → (init devs k).1 ≡ ret 0
    → replay ((init devs k).0 ++ cleanup devs true) [] ≡ some []
unfolding cleanup
scullc_init-cleanup devs k success =
    replay-append (init devs k).0 (cleanup devs true) [] (holdings devs (ret 0))
      (scullc_init-holdings devs k ∙ ap (λ r. some (holdings devs r)) success)
    ∙ delete_under_cache devs _ (buffer ∷ chrdev_region ∷ [])
