-- ===== src/Tty/Lifecycle.antt =====
-- `tiny_init` and `tiny_exit` of serial/tiny_tty.c as the calls that they make. The results of
-- `tty_port_register_device` are not looked at in the source, and taken for successes here.
use ldd_samples.Prelude.{
  ℕ, suc, zero, ◌+◌, ◌<◌, ◌≡◌, refl, Bool, true, false, some, List, [], ◌∷◌, ◌++◌, arith, ◌==◌,
  if◌then◌else◌,
}
use ldd_samples.Kernel.{Ret, ret, fail, enomem}
use ldd_samples.Kernel.Ledger.{
  tty_driver, tty_registration, tty_device, tty_port, Effect, acquire, release, replay,
}
use ldd_samples.Tty.{Tiny, shutdown}

-- `#define TINY_TTY_MINORS 4`
abbrev pub tiny_tty_minors : ℕ
tiny_tty_minors = 4

-- Whether `alloc_tty_driver` and the four `kmalloc` succeed, and what `tty_register_driver` returns.
pub record Answers : Type 0 where
  pub alloc_tty_driver : Bool
  pub tty_register_driver : Ret
  pub kmalloc : List Bool

-- The ports below `n` given back, in the order of the table.
free_ports : ℕ → List Effect
free_ports zero = []
free_ports (suc n) = free_ports n ++ (release (tty_port n) ∷ [])

register_devices : ℕ → List Effect
register_devices zero = []
register_devices (suc n) = register_devices n ++ (acquire (tty_device n) ∷ [])

-- The loop that allocates the ports from `i` on.
init_ports : (i : ℕ) → List Bool → List Effect × Ret
unfolding free_ports register_devices
init_ports i [] = (register_devices tiny_tty_minors, ret 0)
init_ports i (false ∷ rest) = (free_ports i ++ (release tty_driver ∷ []), fail enomem)
init_ports i (true ∷ rest) =
    let (effects, r) = init_ports (i + 1) rest in (acquire (tty_port i) ∷ effects, r)

init_register : Ret → List Bool → List Effect × Ret
unfolding init_ports
init_register (fail e) kmalloc = (release tty_driver ∷ [], fail e)
init_register (ret _) kmalloc =
    let (effects, r) = init_ports 0 kmalloc in (acquire tty_registration ∷ effects, r)

init_driver : Bool → Ret → List Bool → List Effect × Ret
unfolding init_register
init_driver false tty_register_driver kmalloc = ([], fail enomem)
init_driver true tty_register_driver kmalloc =
    let (effects, r) = init_register tty_register_driver kmalloc in
    (acquire tty_driver ∷ effects, r)

unfoldable pub init : Answers → List Effect × Ret
unfolding init_driver
init k = init_driver k.alloc_tty_driver k.tty_register_driver k.kmalloc

unregister_devices : ℕ → List Effect
unregister_devices zero = []
unregister_devices (suc n) = unregister_devices n ++ (release (tty_device n) ∷ [])

unfoldable pub exit : List Effect
unfolding free_ports unregister_devices
exit =
    unregister_devices tiny_tty_minors
    ++ (release tty_registration ∷ release tty_driver ∷ free_ports tiny_tty_minors)

-- What `tiny_exit` does to a port before it frees it.
pub exit_port : Tiny → Tiny
unfolding shutdown
exit_port t = if t.count == 0 then t else shutdown t

-- The answers to the four `kmalloc`, the first `i` of which succeed and the next one fails.
abbrev pub failing_at : ℕ → List Bool
failing_at zero = false ∷ []
failing_at (suc i) = true ∷ failing_at i

-- A load with memory for all four ports and the unload that follows give everything back.
pub tty_init-exit :
    (code : ℕ)
    → replay
        ((init (record {
          alloc_tty_driver = true;
          tty_register_driver = ret code;
          kmalloc = true ∷ true ∷ true ∷ true ∷ [];
        })).0
          ++ exit)
        []
      ≡ some []
unfolding init exit
tty_init-exit code = refl

-- A load that finds no memory for one of the four ports fails with ENOMEM and leaves the driver
-- registered, though it has given the driver back; all ports that it got it has freed.
pub tty_init-leaks :
    (code i : ℕ)
    → i < tiny_tty_minors
    → ((init (record {
      alloc_tty_driver = true;
      tty_register_driver = ret code;
      kmalloc = failing_at i;
    })).1
        ≡ fail enomem)
      × (replay
            (init (record {
              alloc_tty_driver = true;
              tty_register_driver = ret code;
              kmalloc = failing_at i;
            })).0
            []
          ≡ some (tty_registration ∷ []))
unfolding init
tty_init-leaks code zero below = (refl, refl)
tty_init-leaks code (suc zero) below = (refl, refl)
tty_init-leaks code (suc (suc zero)) below = (refl, refl)
tty_init-leaks code (suc (suc (suc zero))) below = (refl, refl)
tty_init-leaks code (suc (suc (suc (suc i)))) below = absurd (omega arith)
