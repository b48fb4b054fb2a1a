-- ===== src/Gates/Tests.antt =====
-- Runs of the labs of ioctl/ whose readers wait.
use ldd_samples.Prelude.{◌+◌, ◌≤◌, ◌≡◌, ◌⊎◌, refl, arith}
use ldd_samples.Gates.Flag as Flag
use ldd_samples.Gates.Awake
use ldd_samples.Gates.Tokens as Tokens

-- A reader of lab7_sleepy.c goes to sleep, and a write wakes it up.
abbrev one_asleep : Flag.Sys
one_asleep = Flag.sleep (Flag.enter Flag.loaded)

abbrev halfway : Flag.Sys
halfway = Flag.begin_write Flag.sleepy_lab one_asleep

abbrev woken : Flag.Sys
woken = Flag.end_write Flag.sleepy_lab halfway

woken-Reach : Flag.Reach Flag.sleepy_lab Flag.loaded woken
woken-Reach =
    let r1 : Flag.Reach Flag.sleepy_lab Flag.loaded (Flag.enter Flag.loaded) =
      Flag.next Flag.here (Flag.enters Flag.loaded) in
    let r2 = Flag.next r1 (Flag.sleeps (Flag.enter Flag.loaded) (λ e. omega (arith, e)) refl) in
    let r3 = Flag.next r2 (Flag.begins one_asleep refl) in Flag.next r3 (Flag.ends halfway refl)

set_first-drains_example :
    (u : Flag.Sys) × Flag.Reach Flag.sleepy_lab woken u
    × (u.testing ≡ 0)
    × (u.sleeping ≡ 0)
    × (u.behind ≡ 0)
    × (u.done ≡ 1)
    × ((u.writes ≡ 1) × (u.writer ≡ Flag.out))
set_first-drains_example =
    Awake.set_first-drains Flag.sleepy_lab woken refl refl woken-Reach refl refl

abbrev two_waiting : Tokens.Sys
two_waiting = Tokens.enter (Tokens.enter (Tokens.loaded Tokens.semaphore_lab))

reads-counted_example :
    (0 ≤ 1)
    × ((two_waiting.waiting ≡ 0)
        ⊎ ((two_waiting.passed ≡ 1)
            ⊎ ((u : Tokens.Sys) × Tokens.Step Tokens.semaphore_lab two_waiting u
                × (u.passed ≡ 1)
                × (u.waiting + 1 ≡ 2))))
reads-counted_example = Tokens.reads-counted Tokens.semaphore_lab two_waiting (
    Tokens.next (Tokens.next Tokens.here (Tokens.enters (Tokens.loaded Tokens.semaphore_lab)))
      (Tokens.enters (Tokens.enter (Tokens.loaded Tokens.semaphore_lab))))
