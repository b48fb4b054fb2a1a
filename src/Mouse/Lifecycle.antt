-- ===== src/Mouse/Lifecycle.antt =====
-- `my_init`, `my_exit` and `mymouse_turnon` of hardware/lab4_full_mouse_driver.c. What the set-up
-- makes of the UART is told by a 16550's registers.
use ldd_samples.Prelude.{
  ℕ, ◌+◌, ◌*◌, ◌/◌, ◌%◌, ◌^◌, ◌≡◌, Bool, true, false, none, some, List, [], ◌∷◌, ◌++◌, arith, ◌==◌,
  ◌&&◌, if◌then◌else◌,
}
use ldd_samples.Kernel.{Ret, ret, fail, eperm}
use ldd_samples.Kernel.Ledger.{
  irq, io_region, cdev, chrdev_region, dev_class, device, Effect, acquire, release, replay,
}

-- Whether the calls of `my_init` succeed, in their order; those whose results are not looked at are
-- taken to succeed.
pub record Answers : Type 0 where
  pub request_irq : Bool
  pub request_region : Bool
  pub first_cdev_alloc : Bool
  pub alloc_chrdev_region : Bool
  pub cdev_alloc : Bool
  pub cdev_add : Bool

init_add : Bool → List Effect × Ret
init_add true = (acquire dev_class ∷ acquire device ∷ [], ret 0)
init_add false = (release cdev ∷ release chrdev_region ∷ [], fail eperm)

init_alloc : Bool → Bool → List Effect × Ret
unfolding init_add
init_alloc false cdev_add = (release chrdev_region ∷ [], fail eperm)
init_alloc true cdev_add = let (effects, r) = init_add cdev_add in (acquire cdev ∷ effects, r)

init_region : Bool → Bool → Bool → List Effect × Ret
unfolding init_alloc
init_region false cdev_alloc cdev_add = ([], fail eperm)
init_region true cdev_alloc cdev_add =
    let (effects, r) = init_alloc cdev_alloc cdev_add in (acquire chrdev_region ∷ effects, r)

-- The part compiled by the `#else`: a first cdev, for a region that is not there yet.
init_first : Bool → Bool → Bool → Bool → List Effect × Ret
unfolding init_region
init_first false alloc_chrdev_region cdev_alloc cdev_add = (release chrdev_region ∷ [], fail eperm)
init_first true alloc_chrdev_region cdev_alloc cdev_add =
    let (effects, r) = init_region alloc_chrdev_region cdev_alloc cdev_add in
    (acquire cdev ∷ effects, r)

unfoldable pub init : Answers → List Effect × Ret
unfolding init_first
init k =
    let (effects, r) =
      init_first k.first_cdev_alloc k.alloc_chrdev_region k.cdev_alloc k.cdev_add in
    if k.request_irq
    then (acquire irq ∷ (if k.request_region then acquire io_region ∷ effects else effects), r)
    else ([], fail eperm)

unfoldable pub exit : List Effect
exit =
    release device
    ∷ release dev_class
    ∷ release chrdev_region
    ∷ release io_region
    ∷ release irq
    ∷ []

-- A load that succeeds and the unload after it leave two cdevs behind, where the ports were free;
-- where they were another driver's, the unload releases ports that the module does not hold.
pub mouse_init-exit :
    (k : Answers)
    → (init k).1 ≡ ret 0
    → replay ((init k).0 ++ exit) [] ≡ (if k.request_region then some (cdev ∷ cdev ∷ []) else none)
unfolding init exit
mouse_init-exit k success = ground arith

-- The registers of the UART that are written.
pub record Uart : Type 0 where
  pub tx : ℕ
  pub ier : ℕ
  pub fcr : ℕ
  pub lcr : ℕ
  pub mcr : ℕ
  pub dll : ℕ
  pub dlm : ℕ

-- `UART_LCR_DLAB`: the first two ports are the divisor's while it is set.
abbrev pub latched : Uart → Bool
latched u = u.lcr / 0x80 % 2 == 1

-- `outb (value, IOSTART + port)`
abbrev pub outb : ℕ → ℕ → Uart → Uart
outb value port u =
    if port == 0 && latched u
    then record u { dll = value }
    else if port == 0
    then record u { tx = value }
    else if port == 1 && latched u
    then record u { dlm = value }
    else if port == 1
    then record u { ier = value }
    else if port == 2
    then record u { fcr = value }
    else if port == 3
    then record u { lcr = value }
    else if port == 4
    then record u { mcr = value }
    else u

-- `QUOT`
abbrev pub quot : ℕ
quot = 1843200 / 16 / 1200

-- The registers' numbers and bits written out: UART_TX is port 0, UART_IER 1, UART_FCR 2, UART_LCR 3,
-- UART_MCR 4, UART_DLL 0 and UART_DLM 1.
pub turnon : Uart → Uart
turnon u =
    let a = outb 1 2 (outb 0x1 1 (outb 0x0 0 u)) in
    let b = outb 0xa 4 (outb 0x2 3 a) in
    let c = outb (quot / 2 ^ 8) 1 (outb (quot % 2 ^ 8) 0 (outb 0x82 3 b)) in outb 0x2 3 c

-- With the divisor latch closed before, the UART has a divisor for 1200 baud afterwards, 7 data bits,
-- and the modem lines and the receive interrupt on.
pub turnon-baud :
    (u : Uart)
    → latched u ≡ false
    → (((turnon u).dll + 2 ^ 8 * (turnon u).dlm) * 1200 ≡ 1843200 / 16)
      × ((turnon u).lcr ≡ 0x2)
      × ((turnon u).mcr ≡ 0xa)
      × ((turnon u).ier ≡ 0x1)
unfolding turnon
turnon-baud u closed = ground arith
