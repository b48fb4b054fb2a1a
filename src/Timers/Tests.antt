-- ===== src/Timers/Tests.antt =====
-- Runs of timers/lab2_multitimer.c.
use ldd_samples.Prelude.{◌≡◌, refl, arith}
use ldd_samples.Timers.Machine
use ldd_samples.Timers.Unload

-- One write, and the exit while its timer waits.
abbrev one_pending : Machine.Sys
one_pending = record (Machine.add_timer (Machine.begin_write Machine.loaded)) {
  stage = Machine.exiting;
}

one_pending-Reach : Machine.Reach Machine.loaded one_pending
one_pending-Reach =
    let r1 : Machine.Reach Machine.loaded (Machine.begin_write Machine.loaded) =
      Machine.next Machine.here (Machine.writes Machine.loaded refl (omega arith)) in
    let r2 : Machine.Reach Machine.loaded (Machine.add_timer (Machine.begin_write Machine.loaded)) =
      Machine.next r1 (Machine.adds (Machine.begin_write Machine.loaded) (λ e. omega (arith, e))) in
    Machine.next r2
      (Machine.exits (Machine.add_timer (Machine.begin_write Machine.loaded)) refl refl)

exit-ends_example : (t : Machine.Sys) × Machine.Reach one_pending t × (t.stage ≡ Machine.gone)
exit-ends_example = Unload.exit-ends one_pending one_pending-Reach refl

abbrev one_freed : Machine.Sys
one_freed = Machine.free_both (Machine.expire one_pending)

abbrev all_gone : Machine.Sys
all_gone = record (Machine.decrement one_freed) { stage = Machine.gone }

all_gone-Reach : Machine.Reach Machine.loaded all_gone
all_gone-Reach =
    let r1 : Machine.Reach Machine.loaded (Machine.expire one_pending) =
      Machine.next one_pending-Reach (Machine.expires one_pending (λ e. omega (arith, e))) in
    let r2 : Machine.Reach Machine.loaded one_freed =
      Machine.next r1 (Machine.frees (Machine.expire one_pending) (λ e. omega (arith, e))) in
    let r3 : Machine.Reach Machine.loaded (Machine.decrement one_freed) =
      Machine.next r2 (Machine.decrements one_freed (λ e. omega (arith, e))) in
    Machine.next r3 (Machine.unloads (Machine.decrement one_freed) refl refl)

gone-freed_example :
    (all_gone.pending ≡ 0) × (all_gone.running ≡ 0) × (all_gone.freed ≡ 0) × (all_gone.objects ≡ 0)
gone-freed_example = Unload.gone-freed all_gone all_gone-Reach refl
