-- ===== src/Completion/Counting.antt =====
-- What the thread of misc/completion_static.c counts, and how it ends.
use ldd_samples.Prelude.{ℕ, ◌+◌, ◌%◌, ◌^◌, ◌≤◌, ◌≡◌, refl, ap, arith}
use ldd_samples.Completion.Machine.{
  Thread, asleep, awake, counted, ended, Sys, loaded, begin, decide, signal, wake, leave, count,
  clear, Step, reads, exits, passes_by, decides, signals, wakes, leaves, counts, clears, Reach,
  here, next,
}

-- A thread that is out of its wait and has not counted yet.
abbrev pub taken : Thread → ℕ
taken awake = 1
taken t = 0

-- Each call is still on its way, waits as a completion, is in the thread's hands, or was counted once.
pub IsCounted : Sys → Type 0
IsCounted s = s.read_count + taken s.thread + s.completions + s.signalling + s.testing ≤ s.calls

Step-IsCounted : {s t : Sys} → Step s t → IsCounted s → IsCounted t
unfolding IsCounted
Step-IsCounted (reads s) h = omega arith
Step-IsCounted (exits s) h = omega arith
Step-IsCounted (passes_by s testing waiting) h = omega arith
Step-IsCounted (decides s testing none_left) h = omega arith
Step-IsCounted (signals s signalling) h = omega arith
Step-IsCounted (wakes s at waiting) h = let e : taken s.thread ≡ 0 = ap taken at in omega arith
Step-IsCounted (leaves s at flag) h = let e : taken s.thread ≡ 1 = ap taken at in omega arith
Step-IsCounted (counts s at flag) h = let e : taken s.thread ≡ 1 = ap taken at in omega arith
Step-IsCounted (clears s at) h = let e : taken s.thread ≡ 0 = ap taken at in omega arith

Reach-IsCounted : {s t : Sys} → IsCounted s → Reach s t → IsCounted t
Reach-IsCounted h here = h
Reach-IsCounted h (next r step) = Step-IsCounted step (Reach-IsCounted h r)

-- Through any interleaving of the thread with reads and unloads, from the load on: the thread has counted
-- no more events than there were calls, even together with those that it has still to count.
pub counted-le :
    (s : Sys) → Reach loaded s → s.read_count + taken s.thread + s.completions ≤ s.calls
unfolding IsCounted
counted-le s r = let h = Reach-IsCounted (omega arith) r in omega arith

-- The thread sleeps, and no completion waits for it.
pub record IsQuiet (s : Sys) : Type 0 where
  pub asleep : s.thread ≡ Thread.asleep
  pub drained : s.completions ≡ 0

-- While the thread sleeps and no completion waits, a read can run to its end and be counted once, after
-- which the thread sleeps again; and an unload can run to its end and end the thread.
pub IsQuiet-served :
    (s : Sys)
    → IsQuiet s
    → ((t : Sys) × Reach s t
        × IsQuiet t
        × (t.read_count ≡ (s.read_count + 1) % 2 ^ 32)
        × (t.testing ≡ s.testing)
        × (t.signalling ≡ s.signalling))
      × ((t : Sys) × Reach s t
          × (t.thread ≡ ended)
          × (t.testing ≡ s.testing)
          × (t.signalling ≡ s.signalling))
IsQuiet-served s q =
    let served : (v : ℕ) → Step s (begin v s) → Reach s (wake (signal (decide (begin v s)))) =
      λ v start.
        next
          (next (next (next here start) (decides (begin v s) (omega arith) q.drained))
            (signals (decide (begin v s)) (omega arith)))
          (wakes (signal (decide (begin v s))) q.asleep (omega arith)) in
    (
      (
        clear (count (wake (signal (decide (begin 1 s))))),
        next
            (next (served 1 (reads s))
              (counts (wake (signal (decide (begin 1 s)))) refl (omega arith)))
            (clears (count (wake (signal (decide (begin 1 s))))) refl),
        record { asleep = refl; drained = let z = q.drained in omega arith },
        refl,
        omega arith,
        omega arith,
      ),
      (
        leave (wake (signal (decide (begin 2 s)))),
        next (served 2 (exits s)) (leaves (wake (signal (decide (begin 2 s)))) refl refl),
        refl,
        omega arith,
        omega arith,
      ),
    )

-- A step that no new call takes.
IsStuck : Sys → Type 0
IsStuck t = (u : Sys) → Step t u → u.calls ≡ t.calls + 1

IsQuiet-IsStuck : (t : Sys) → IsQuiet t → t.testing ≡ 0 → t.signalling ≡ 0 → IsStuck t
unfolding IsStuck
IsQuiet-IsStuck t q none_testing none_signalling u (reads s) = refl
IsQuiet-IsStuck t q none_testing none_signalling u (exits s) = refl
IsQuiet-IsStuck t q none_testing none_signalling u (passes_by s testing waiting) = omega arith
IsQuiet-IsStuck t q none_testing none_signalling u (decides s testing drained) = omega arith
IsQuiet-IsStuck t q none_testing none_signalling u (signals s signalling) = omega arith
IsQuiet-IsStuck t q none_testing none_signalling u (wakes s at waiting) =
    let z = q.drained in omega arith
IsQuiet-IsStuck t q none_testing none_signalling u (leaves s at flag) =
    let z = q.asleep in absurd (cc (at, z))
IsQuiet-IsStuck t q none_testing none_signalling u (counts s at flag) =
    let z = q.asleep in absurd (cc (at, z))
IsQuiet-IsStuck t q none_testing none_signalling u (clears s at) =
    let z = q.asleep in absurd (cc (at, z))

-- Where the unload comes after the thread has counted a read and before it clears the flag, with no other
-- call under way, it can be lost: the unload runs to its end, and the thread takes its completion for a
-- read, counts it and goes to sleep, and no step but that of a new call is left.
pub unload-lost :
    (s : Sys)
    → s.thread ≡ counted
    → s.completions ≡ 0
    → s.testing ≡ 0
    → s.signalling ≡ 0
    → (t : Sys) × Reach s t
      × (t.thread ≡ asleep)
      × (t.read_count ≡ (s.read_count + 1) % 2 ^ 32)
      × ((u : Sys) → Step t u → u.calls ≡ t.calls + 1)
unfolding IsStuck
unload-lost s at drained none_testing none_signalling =
    let signalled : Sys = signal (decide (begin 2 s)) in
    let t : Sys = clear (count (wake (clear signalled))) in
    (
      t,
      next
          (next
            (next
              (next
                (next (next (next here (exits s)) (decides (begin 2 s) (omega arith) drained))
                  (signals (decide (begin 2 s)) (omega arith)))
                (clears signalled at))
              (wakes (clear signalled) refl (omega arith)))
            (counts (wake (clear signalled)) refl (omega arith)))
          (clears (count (wake (clear signalled))) refl),
      refl,
      refl,
      IsQuiet-IsStuck t (record { asleep = refl; drained = omega arith }) (omega arith)
          (omega arith),
    )
