-- ===== src/Kernel/Ledger.antt =====
-- The ledger of what a driver holds: its calls acquire and release resources, and a replay of the
-- calls finds out whether each release is of something held, and what is held at the end.
use ldd_samples.Prelude.{
  ℕ, ◌+◌, ◌≡◌, ap, List, [], ◌∷◌, ◌++◌, Option, none, some, ◌==◌, if◌then◌else◌,
}

-- What the drivers acquire from the kernel.
pub data Resource : Type 0 where
  chrdev_region cdev dev_class device buffer irq io_region : Resource
  blkdev gendisk request_queue slab_cache tty_driver tty_registration misc_device : Resource
  urb usb_device usb_interface usb_minor dev_memory net_device timer_slot thread proc_entry :
      Resource
  tty_device tty_port : ℕ → Resource

pub data Effect : Type 0 where
  acquire : Resource → Effect
  release : Resource → Effect

-- A number for each resource, by which two are compared.
abbrev pub tag : Resource → ℕ
tag chrdev_region = 0
tag cdev = 1
tag dev_class = 2
tag device = 3
tag buffer = 4
tag irq = 5
tag io_region = 6
tag blkdev = 7
tag gendisk = 8
tag request_queue = 9
tag slab_cache = 10
tag tty_driver = 11
tag tty_registration = 12
tag misc_device = 13
tag urb = 14
tag usb_device = 15
tag usb_interface = 16
tag usb_minor = 17
tag dev_memory = 18
tag net_device = 19
tag timer_slot = 20
tag thread = 21
tag proc_entry = 22
tag (tty_device i) = 30 + (i + i)
tag (tty_port i) = 31 + (i + i)

-- Takes one `r` out of what is held; `none` if it is not held.
abbrev pub give_back : Resource → List Resource → Option (List Resource)
give_back r [] = none
give_back r (s ∷ held) =
    if tag r == tag s
    then some held
    else elim (give_back r held) [ none ↦ none | some rest ↦ some (s ∷ rest) ]

-- What is held after the calls; `none` once something is released that is not held.
abbrev pub replay : List Effect → List Resource → Option (List Resource)
replay [] held = some held
replay (acquire r ∷ effects) held = replay effects (r ∷ held)
replay (release r ∷ effects) held = elim (give_back r held) [
  | none ↦ none
  | some rest ↦ replay effects rest
]

after_release :
    (xs ys : List Effect) (mid : List Resource) (o : Option (List Resource))
    → ((h : List Resource) → replay xs h ≡ some mid → replay (xs ++ ys) h ≡ replay ys mid)
    → elim o [ none ↦ none | some rest ↦ replay xs rest ] ≡ some mid
    → elim o [ none ↦ none | some rest ↦ replay (xs ++ ys) rest ] ≡ replay ys mid
after_release xs ys mid none both e = cc
after_release xs ys mid (some rest) both e = both rest e

-- The calls of two parts one after the other.
pub replay-append :
    (xs ys : List Effect) (held mid : List Resource)
    → replay xs held ≡ some mid
    → replay (xs ++ ys) held ≡ replay ys mid
replay-append [] ys held mid e =
    ap (λ (o : Option (List Resource)). elim o [ none ↦ replay ys held | some h ↦ replay ys h ]) e
replay-append (acquire r ∷ xs) ys held mid e = replay-append xs ys (r ∷ held) mid e
replay-append (release r ∷ xs) ys held mid e =
    after_release xs ys mid (give_back r held) (λ h f. replay-append xs ys h mid f) e
