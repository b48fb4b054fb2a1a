-- ===== src/Slab/Opens.antt =====
-- The opens and releases of memory/memory_lab2_cache.c, one process after the other and at once.
use ldd_samples.Prelude.{ℕ, ◌≡◌, ◌≢◌, refl, ◌∙◌, ap, Option, none, some, List, [], ◌∷◌, arith}
use ldd_samples.Kernel.{Ret, ret}
use ldd_samples.Slab.Device.{
  Cache, open_dev, free_object, release, Op, opening, releasing, perform_all,
}

-- Processes one after the other: each opens the device and, if that succeeds, releases it.
abbrev pub turns : List (Option ℕ) → List Op
turns [] = []
turns (none ∷ answers) = opening none ∷ turns answers
turns (some object ∷ answers) = opening (some object) ∷ releasing ∷ turns answers

free-head : (object : ℕ) (live : List ℕ) → free_object object (object ∷ live) ≡ some live
free-head object live = ground arith

-- What `chardrv_release` does for the object that was allocated last.
release-head :
    (object : ℕ) (live : List ℕ)
    → release (record { membuff = some object; live = object ∷ live })
      ≡ some (record { membuff = some object; live = live }, ret 0)
unfolding release
release-head object live =
    ap
      (λ (o : Option (List ℕ)). elim o [
        | none ↦ none
        | some rest ↦ some (record { membuff = some object; live = rest }, ret 0)
      ])
      (free-head object live)

release-then :
    (c : Cache) (ops : List Op) (o : Option (Cache × Ret))
    → release c ≡ o
    → perform_all (releasing ∷ ops) c ≡ elim o [ none ↦ none | some (c', r) ↦ perform_all ops c' ]
unfolding perform_all
release-then c ops o e =
    ap (λ (p : Option (Cache × Ret)). elim p [ none ↦ none | some (c', r) ↦ perform_all ops c' ]) e

-- With one process at a time, whatever the allocator answers, each release frees an object that is allocated, and
-- at the end the objects that are allocated are those of the start.
pub turns-balanced :
    (answers : List (Option ℕ)) (c : Cache)
    → (c' : Cache) × (perform_all (turns answers) c ≡ some c') × (c'.live ≡ c.live)
unfolding perform_all open_dev release
turns-balanced [] c = (c, refl, refl)
turns-balanced (none ∷ answers) c = turns-balanced answers (open_dev none c).0
turns-balanced (some object ∷ answers) c =
    let (c', runs, same) =
      turns-balanced answers (record { membuff = some object; live = c.live }) in
    (
      c',
      release-then (record { membuff = some object; live = object ∷ c.live }) (turns answers)
            (some (record { membuff = some object; live = c.live }, ret 0))
            (release-head object c.live)
          ∙ runs,
      same,
    )

-- An object that is not allocated.
abbrev pub IsFresh : ℕ → List ℕ → Type 0
IsFresh object [] = Unit
IsFresh object (o ∷ live) = (o ≢ object) × IsFresh object live

free-fresh : (object : ℕ) (live : List ℕ) → IsFresh object live → free_object object live ≡ none
free-fresh object [] h = refl
free-fresh object (o ∷ live) (away, h) = ground (arith, away, free-fresh object live h)

release-fresh :
    (object : ℕ) (live : List ℕ)
    → IsFresh object live
    → release (record { membuff = some object; live = live }) ≡ none
unfolding release
release-fresh object live fresh =
    ap
      (λ (o : Option (List ℕ)). elim o [
        | none ↦ none
        | some rest ↦ some (record { membuff = some object; live = rest }, ret 0)
      ])
      (free-fresh object live fresh)

-- Two processes at once: when the allocator gives each a fresh object, the second release frees the second object
-- again, and the first object is never freed.
pub overlap-freed_twice :
    (a b : ℕ) (c : Cache)
    → a ≢ b
    → IsFresh b c.live
    → (perform_all (opening (some a) ∷ opening (some b) ∷ releasing ∷ []) c
        ≡ some (record { membuff = some b; live = a ∷ c.live }))
      × (perform_all (opening (some a) ∷ opening (some b) ∷ releasing ∷ releasing ∷ []) c ≡ none)
unfolding perform_all open_dev release
overlap-freed_twice a b c apart fresh =
    let both : Cache = record { membuff = some b; live = b ∷ a ∷ c.live } in
    let one : Cache = record { membuff = some b; live = a ∷ c.live } in
    let first : (ops : List Op) → perform_all (releasing ∷ ops) both ≡ perform_all ops one =
      λ ops. release-then both ops (some (one, ret 0)) (release-head b (a ∷ c.live)) in
    (
      first [],
      first (releasing ∷ [])
          ∙ release-then one [] none (release-fresh b (a ∷ c.live) (apart, fresh)),
    )
