-- ===== src/CharDev/Lifecycle.antt =====
-- `chardrv_init` and `chardrv_exit` of char/lab6_char_fasync.c as the calls that they make. What
-- the kernel answers is a parameter.
use ldd_samples.Prelude.{List, [], ◌∷◌, ◌++◌, ◌≡◌, Bool, true, false, none, some, arith}
use ldd_samples.Kernel.{Ret, ret, fail, eperm}
use ldd_samples.Kernel.Ledger.{
  Resource, chrdev_region, dev_class, device, buffer, Effect, acquire, release, replay,
}

-- The answers of the kernel to the calls of `chardrv_init`: an error, or success.
pub record Answers : Type 0 where
  pub register_chrdev : Ret
  pub class_create : Ret
  pub device_create : Ret
  pub kmalloc : Bool

init_buffer : Bool → List Effect × Ret
init_buffer true = (acquire buffer ∷ [], ret 0)
init_buffer false = (release device ∷ release dev_class ∷ release chrdev_region ∷ [], fail eperm)

init_device : Ret → Bool → List Effect × Ret
unfolding init_buffer
init_device (fail e) kmalloc = (release dev_class ∷ release chrdev_region ∷ [], fail e)
init_device (ret _) kmalloc =
    let (effects, r) = init_buffer kmalloc in (acquire device ∷ effects, r)

init_class : Ret → Ret → Bool → List Effect × Ret
unfolding init_device
init_class (fail e) device_create kmalloc = (release chrdev_region ∷ [], fail e)
init_class (ret _) device_create kmalloc =
    let (effects, r) = init_device device_create kmalloc in (acquire dev_class ∷ effects, r)

init_region : Ret → Ret → Ret → Bool → List Effect × Ret
unfolding init_class
init_region (fail e) class_create device_create kmalloc = ([], fail e)
init_region (ret _) class_create device_create kmalloc =
    let (effects, r) = init_class class_create device_create kmalloc in
    (acquire chrdev_region ∷ effects, r)

unfoldable pub init : Answers → List Effect × Ret
unfolding init_region
init k = init_region k.register_chrdev k.class_create k.device_create k.kmalloc

-- `class_unregister` and `class_destroy` each take the class's registration back.
unfoldable pub exit : List Effect
exit =
    release buffer
    ∷ release device
    ∷ release dev_class
    ∷ release dev_class
    ∷ release chrdev_region
    ∷ []

-- What the module holds after `chardrv_init` returned.
abbrev pub holdings : Ret → List Resource
holdings (fail e) = []
holdings (ret _) = buffer ∷ device ∷ dev_class ∷ chrdev_region ∷ []

-- Whatever the kernel answers, the init function releases only what it holds; if it fails it has
-- released all of it, and if it succeeds it holds the region, the class, the device and the buffer.
pub replay-init : (k : Answers) → replay (init k).0 [] ≡ some (holdings (init k).1)
unfolding init
replay-init k = ground arith

-- After an init that succeeded the exit function releases the class a second time.
pub replay-exit : (k : Answers) → (init k).1 ≡ ret 0 → replay ((init k).0 ++ exit) [] ≡ none
unfolding init exit
replay-exit k success = ground arith
