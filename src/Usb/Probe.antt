-- ===== src/Usb/Probe.antt =====
-- `skel_probe`, `skel_disconnect` and `skel_delete` of usb/usb-skeleton.c as the resources that they
-- take and give back.
use ldd_samples.Prelude.{
  List, [], ◌∷◌, ◌++◌, ◌≡◌, Bool, true, false, Option, none, some, arith, if◌then◌else◌,
}
use ldd_samples.Kernel.{Errno, Ret, ret, fail, enomem}
use ldd_samples.Kernel.Ledger.{
  Resource, dev_memory, usb_device, usb_interface, buffer, urb, usb_minor, Effect, acquire, release,
  replay,
}

-- Whether `kzalloc`, `kmalloc` and `usb_alloc_urb` succeed, and the statuses of
-- `usb_find_common_endpoints` and `usb_register_dev`.
pub record Answers : Type 0 where
  pub kzalloc : Bool
  pub endpoints : Option Errno
  pub kmalloc : Bool
  pub alloc_urb : Bool
  pub register_dev : Option Errno

-- `skel_delete`, where the URB or the buffer may still be NULL.
unfoldable pub delete : (has_urb has_buffer : Bool) → List Effect
delete true true =
    release urb
    ∷ release usb_interface
    ∷ release usb_device
    ∷ release buffer
    ∷ release dev_memory
    ∷ []
delete false true =
    release usb_interface ∷ release usb_device ∷ release buffer ∷ release dev_memory ∷ []
delete true false =
    release urb ∷ release usb_interface ∷ release usb_device ∷ release dev_memory ∷ []
delete false false = release usb_interface ∷ release usb_device ∷ release dev_memory ∷ []

probe_register : Option Errno → List Effect × Ret
unfolding delete
probe_register none = (acquire usb_minor ∷ [], ret 0)
probe_register (some e) = (delete true true, fail e)

probe_urb : Bool → Option Errno → List Effect × Ret
unfolding probe_register
probe_urb false register_dev = (delete false true, fail enomem)
probe_urb true register_dev =
    let (effects, r) = probe_register register_dev in (acquire urb ∷ effects, r)

probe_buffer : Bool → Bool → Option Errno → List Effect × Ret
unfolding probe_urb
probe_buffer false alloc_urb register_dev = (delete false false, fail enomem)
probe_buffer true alloc_urb register_dev =
    let (effects, r) = probe_urb alloc_urb register_dev in (acquire buffer ∷ effects, r)

probe_endpoints : Option Errno → Bool → Bool → Option Errno → List Effect × Ret
unfolding probe_buffer
probe_endpoints (some e) kmalloc alloc_urb register_dev = (delete false false, fail e)
probe_endpoints none kmalloc alloc_urb register_dev = probe_buffer kmalloc alloc_urb register_dev

unfoldable pub probe : Answers → List Effect × Ret
unfolding probe_endpoints
probe k =
    let (effects, r) = probe_endpoints k.endpoints k.kmalloc k.alloc_urb k.register_dev in
    if k.kzalloc
    then (acquire dev_memory ∷ acquire usb_device ∷ acquire usb_interface ∷ effects, r)
    else ([], fail enomem)

-- What the driver holds after `skel_probe` returned.
abbrev pub holdings : Ret → List Resource
holdings (fail e) = []
holdings (ret _) = usb_minor ∷ urb ∷ buffer ∷ usb_interface ∷ usb_device ∷ dev_memory ∷ []

-- Whatever the kernel answers, skel_probe releases only what it holds; if it fails it has released all
-- of it, and if it succeeds it holds the memory of the device, its two references, the buffer, the
-- URB and the minor.
pub probe-holdings : (k : Answers) → replay (probe k).0 [] ≡ some (holdings (probe k).1)
unfolding probe
probe-holdings k = ground arith

-- A probe that succeeds, the disconnect and the delete by the last reference give everything back.
pub probe-delete :
    (k : Answers)
    → (probe k).1 ≡ ret 0
    → replay ((probe k).0 ++ (release usb_minor ∷ delete true true)) [] ≡ some []
unfolding probe delete
probe-delete k success = ground arith
