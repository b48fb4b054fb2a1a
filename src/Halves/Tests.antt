-- ===== src/Halves/Tests.antt =====
-- The theorems on the interrupt labs at concrete runs.
use ldd_samples.Prelude.{◌≡◌, ◌+◌, ◌⊎◌, refl, false, true, arith}
use ldd_samples.Halves.Improved as Improved
use ldd_samples.Halves.Accounts
use ldd_samples.Halves.Threaded as Threaded

-- One interrupt, which the tasklet serves.
abbrev one_noted : Improved.Sys
one_noted = Improved.note (Improved.raise Improved.loaded)

abbrev one_running : Improved.Sys
one_running = Improved.start (Improved.schedule one_noted)

abbrev one_served : Improved.Sys
one_served = Improved.settle (Improved.count (Improved.accept one_running))

one_served-Reach : Improved.Reach Improved.loaded one_served
one_served-Reach =
    let r1 = Improved.next Improved.here (Improved.raises Improved.loaded refl) in
    let r2 =
      Improved.next r1 (Improved.notes (Improved.raise Improved.loaded) refl (omega arith)) in
    let r3 = Improved.next r2 (Improved.schedules one_noted refl) in
    let r4 = Improved.next r3 (Improved.starts (Improved.schedule one_noted) refl refl) in
    let r5 = Improved.next r4 (Improved.accepts one_running refl (λ e. omega (arith, e))) in
    let r6 = Improved.next r5 (Improved.counts (Improved.accept one_running) refl) in
    Improved.next r6 (Improved.settles (Improved.count (Improved.accept one_running)) refl refl)

rests-counted_example : (one_served.nevents ≡ 0) × (one_served.counter_bh ≡ one_served.counter_th)
rests-counted_example = Accounts.rests-counted one_served one_served-Reach refl refl refl

abbrev started : Threaded.Sys
started = record {
  counter_th = 7;
  counter_bh = 7;
  nevents = 0;
  catchup = 0;
  cond = false;
  stop = false;
  top = Threaded.out;
  thread = Threaded.clearing;
}

interrupt-stalls_example :
    (t : Threaded.Sys) × Threaded.Reach started t
    × (t.nevents ≡ 1)
    × (t.counter_th ≡ 8)
    × (t.counter_bh ≡ 7)
    × ((u : Threaded.Sys) → Threaded.Step t u → (u.nevents ≡ t.nevents + 1) ⊎ (u.stop ≡ true))
interrupt-stalls_example = Threaded.interrupt-stalls started refl refl refl refl
