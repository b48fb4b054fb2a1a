-- ===== src/Jiq/Tests.antt =====
-- Runs of timers/lab8_jiq.c at concrete inputs.
use ldd_samples.Prelude.{◌≡◌, refl, true, false, arith}
use ldd_samples.Jiq.Client.{Client, Line, ended, runs, prepared}
use ldd_samples.Jiq.Filling.{IsLine, IsFull, runs-IsFull}
use ldd_samples.Jiq.Sleep
use ldd_samples.Jiq.Waking

abbrev line : Line
line = record { title = 44; text = 50; now = 7 }

line-IsLine : IsLine line
line-IsLine = record { title = omega arith; text = omega arith; some_text = omega arith }

runs-IsFull_example : (c : Client) × (runs 4000 0 (λ i. line) (prepared 1 0) ≡ ended c) × IsFull c
runs-IsFull_example = runs-IsFull 4000 1 0 (λ i. line) (λ j. line-IsLine) (omega arith)

-- A work item is in its queue, and the reader waits.
abbrev asleep : Sleep.Sys
asleep = Sleep.second_call true (Sleep.first_call true (Sleep.start 1 0))

asleep-Reach : Sleep.Reach true (λ i. line) (Sleep.start 1 0) asleep
asleep-Reach =
    Sleep.next (Sleep.next Sleep.here (Sleep.calls (Sleep.start 1 0) refl))
      (Sleep.calls_on (Sleep.first_call true (Sleep.start 1 0)) refl)

work-returns_example :
    (u : Sleep.Sys) × Sleep.Reach true (λ i. line) asleep u
    × (u.phase ≡ Sleep.back)
    × IsFull u.client
work-returns_example = Waking.work-returns (λ i. line) (λ j. line-IsLine) 1 0 asleep asleep-Reach

tasklet-lost_example :
    (u : Sleep.Sys) × Sleep.Reach false (λ i. line) (Sleep.start 1 0) u
    × (u.phase ≡ Sleep.behind)
    × (u.waiting ≡ true)
    × (u.queued ≡ false)
    × IsFull u.client
    × ((v : Sleep.Sys) → ¬ (Sleep.Step false (λ i. line) u v))
tasklet-lost_example = Waking.tasklet-lost (λ i. line) (λ j. line-IsLine) 1 0
