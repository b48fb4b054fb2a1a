-- ===== src/Slab/Tests.antt =====
-- Opens and releases of memory/memory_lab2_cache.c.
use ldd_samples.Prelude.{◌≡◌, none, some, [], ◌∷◌, arith}
use ldd_samples.Slab.Device.{Cache, opening, releasing, perform_all}
use ldd_samples.Slab.Opens.{turns, overlap-freed_twice, turns-balanced}

abbrev idle : Cache
idle = record { membuff = none; live = 9 ∷ [] }

overlap-freed_twice_example :
    (perform_all (opening (some 1) ∷ opening (some 2) ∷ releasing ∷ []) idle
      ≡ some (record { membuff = some 2; live = 1 ∷ 9 ∷ [] }))
    × (perform_all (opening (some 1) ∷ opening (some 2) ∷ releasing ∷ releasing ∷ []) idle ≡ none)
overlap-freed_twice_example =
    overlap-freed_twice 1 2 idle (λ e. omega (arith, e)) ((λ e. omega (arith, e)), tt)

turns-balanced_example :
    (c' : Cache) × (perform_all (turns (some 3 ∷ none ∷ some 4 ∷ [])) idle ≡ some c')
    × (c'.live ≡ 9 ∷ [])
turns-balanced_example = turns-balanced (some 3 ∷ none ∷ some 4 ∷ []) idle
