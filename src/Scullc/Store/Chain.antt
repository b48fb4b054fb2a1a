-- ===== src/Scullc/Store/Chain.antt =====
-- The chain of items of io/lab6_aio.c: what following, allocating and writing do to the quanta.
use ldd_samples.Prelude.{
  ℕ, zero, suc, ◌<◌, ◌≡◌, ◌≢◌, refl, ◌∙◌, Bool, true, false, none, some, List, [], ◌∷◌, arith, ◌==◌,
  ◌&&◌, if◌then◌else◌, length,
}
use ldd_samples.Kernel.Memory.{Mem}
use ldd_samples.Scullc.Store.{Item, follow, quantum_at, put_quantum, put_array, has_array}

-- The chain that `follow` gives where memory is found.
pub grown : ℕ → List Item → List Item
grown zero items = items
grown (suc n) [] = []
grown (suc n) (x ∷ []) = x ∷ grown n (none ∷ [])
grown (suc n) (x ∷ y ∷ items) = x ∷ grown n (y ∷ items)

follow-grown : (n : ℕ) (items : List Item) → items ≢ [] → follow true n items ≡ some (grown n items)
unfolding follow grown
follow-grown zero items ne = refl
follow-grown (suc n) [] ne = absurd (ne refl)
follow-grown (suc n) (x ∷ []) ne = rw (follow-grown n (none ∷ []) (ground arith))
follow-grown (suc n) (x ∷ y ∷ items) ne = rw (follow-grown n (y ∷ items) (ground arith))

pub follow_of_grows :
    (grows : Bool) (n : ℕ) (items : List Item)
    → grows ≡ true
    → items ≢ []
    → follow grows n items ≡ some (grown n items)
follow_of_grows grows n items g ne = rw g (follow-grown n items ne)

pub length-grown : (n : ℕ) (items : List Item) → items ≢ [] → n < length (grown n items)
unfolding grown
length-grown zero [] ne = absurd (ne refl)
length-grown zero (x ∷ items) ne = omega arith
length-grown (suc n) [] ne = absurd (ne refl)
length-grown (suc n) (x ∷ []) ne = omega (arith, length-grown n (none ∷ []) (ground arith))
length-grown (suc n) (x ∷ y ∷ items) ne = omega (arith, length-grown n (y ∷ items) (ground arith))

quantum_at-fresh : (i s : ℕ) → quantum_at (none ∷ []) i s ≡ none
quantum_at-fresh zero s = refl
quantum_at-fresh (suc i) s = refl

-- The items that are added hold nothing.
pub quantum_at-grown :
    (n : ℕ) (items : List Item) (i s : ℕ) → quantum_at (grown n items) i s ≡ quantum_at items i s
unfolding grown
quantum_at-grown zero items i s = refl
quantum_at-grown (suc n) [] i s = refl
quantum_at-grown (suc n) (none ∷ []) zero s = refl
quantum_at-grown (suc n) (some pointers ∷ []) zero s = refl
quantum_at-grown (suc n) (none ∷ []) (suc i) s =
    quantum_at-grown n (none ∷ []) i s ∙ quantum_at-fresh i s
quantum_at-grown (suc n) (some pointers ∷ []) (suc i) s =
    quantum_at-grown n (none ∷ []) i s ∙ quantum_at-fresh i s
quantum_at-grown (suc n) (none ∷ y ∷ items) zero s = refl
quantum_at-grown (suc n) (some pointers ∷ y ∷ items) zero s = refl
quantum_at-grown (suc n) (none ∷ y ∷ items) (suc i) s = quantum_at-grown n (y ∷ items) i s
quantum_at-grown (suc n) (some pointers ∷ y ∷ items) (suc i) s = quantum_at-grown n (y ∷ items) i s

pub has_array-put_array :
    (items : List Item) (i : ℕ) → i < length items → has_array (put_array items i) i ≡ true
has_array-put_array [] i h = absurd (omega arith)
has_array-put_array (x ∷ items) zero h = refl
has_array-put_array (none ∷ items) (suc i) h = has_array-put_array items i (omega arith)
has_array-put_array (some pointers ∷ items) (suc i) h = has_array-put_array items i (omega arith)

pub quantum_at_of_no_array :
    (items : List Item) (i s : ℕ) → has_array items i ≡ false → quantum_at items i s ≡ none
quantum_at_of_no_array [] i s h = refl
quantum_at_of_no_array (none ∷ items) zero s h = refl
quantum_at_of_no_array (some pointers ∷ items) zero s h = cc
quantum_at_of_no_array (none ∷ items) (suc i) s h = quantum_at_of_no_array items i s h
quantum_at_of_no_array (some pointers ∷ items) (suc i) s h = quantum_at_of_no_array items i s h

-- A new array holds nothing where there was none before.
pub quantum_at-put_array :
    (items : List Item) (i j s : ℕ)
    → has_array items i ≡ false
    → quantum_at (put_array items i) j s ≡ quantum_at items j s
quantum_at-put_array [] i j s h = refl
quantum_at-put_array (none ∷ items) zero zero s h = refl
quantum_at-put_array (none ∷ items) zero (suc j) s h = refl
quantum_at-put_array (some pointers ∷ items) zero j s h = cc
quantum_at-put_array (none ∷ items) (suc i) zero s h = refl
quantum_at-put_array (some pointers ∷ items) (suc i) zero s h = refl
quantum_at-put_array (none ∷ items) (suc i) (suc j) s h = quantum_at-put_array items i j s h
quantum_at-put_array (some pointers ∷ items) (suc i) (suc j) s h =
    quantum_at-put_array items i j s h

-- A quantum that is put in place is found there, and all others stay.
pub quantum_at-put_quantum :
    (items : List Item) (i s : ℕ) (q : Mem) (j t : ℕ)
    → has_array items i ≡ true
    → quantum_at (put_quantum items i s q) j t
      ≡ (if (j == i && t == s) then some q else quantum_at items j t)
quantum_at-put_quantum [] i s q j t h = cc
quantum_at-put_quantum (none ∷ items) zero s q j t h = cc
quantum_at-put_quantum (some pointers ∷ items) zero s q zero t h = ground arith
quantum_at-put_quantum (some pointers ∷ items) zero s q (suc j) t h = ground arith
quantum_at-put_quantum (none ∷ items) (suc i) s q zero t h = ground arith
quantum_at-put_quantum (some pointers ∷ items) (suc i) s q zero t h = ground arith
quantum_at-put_quantum (none ∷ items) (suc i) s q (suc j) t h =
    ground (arith, quantum_at-put_quantum items i s q j t)
quantum_at-put_quantum (some pointers ∷ items) (suc i) s q (suc j) t h =
    ground (arith, quantum_at-put_quantum items i s q j t)
