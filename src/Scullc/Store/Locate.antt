-- ===== src/Scullc/Store/Locate.antt =====
-- Where a position lies in a device of io/lab6_aio.c whose parameters are positive and whose items
-- fit an `int`.
use native.Mathlib.Nat.{mod-le}
use ldd_samples.Prelude.{
  ℕ, ◌+◌, ◌-◌, ◌*◌, ◌/◌, ◌%◌, ◌^◌, ◌≤◌, ◌<◌, ◌≡◌, ap, ◌∙◌, subst, ltb, leb, ◌&&◌, false, none, some,
  arith, ◌==◌, ◌||◌, lt→ltb,
}
use ldd_samples.Kernel.Word.{to_int, extend_int, div64, rem64, div64-rem64}
use ldd_samples.Scullc.Store.{Place, place_in, locate}

-- The place of a position by plain division.
abbrev pub place : (quantum qset p : ℕ) → Place
place quantum qset p = record {
  item = p / (quantum * qset);
  s_pos = p % (quantum * qset) / quantum;
  q_pos = p % (quantum * qset) % quantum;
}

pub record IsShaped (quantum qset : ℕ) : Type 0 where
  pub quantum_pos : 0 < quantum
  pub qset_pos : 0 < qset
  pub small : quantum * qset < 2 ^ 31

carry : (d p i : ℕ) → p % d + i < d → ((p + i) / d ≡ p / d) × ((p + i) % d ≡ p % d + i)
carry d p i h = grind arith

extend_int_small : (x : ℕ) → x < 2 ^ 31 → extend_int x ≡ x
extend_int_small x h = ground arith

to_int_small : (x : ℕ) → x < 2 ^ 31 → to_int x ≡ x
to_int_small x h = omega arith

long_quotient :
    (p d : ℕ)
    → p < 2 ^ 31
    → d < 2 ^ 31
    → (to_int (div64 p d) ≡ p / d) × (to_int (rem64 p d) ≡ p % d)
long_quotient p d hp hd =
    let (e, f) = div64-rem64 p d (omega arith) (omega arith) in
    rw (e, f) (to_int_small (p / d) (omega arith), to_int_small (p % d) (omega (arith, mod-le p d)))

place_in-place :
    (quantum d p : ℕ)
    → 0 < quantum
    → 0 < d
    → quantum < 2 ^ 31
    → d < 2 ^ 31
    → p < 2 ^ 31
    → place_in quantum d p
      ≡ some (record { item = p / d; s_pos = p % d / quantum; q_pos = p % d % quantum })
unfolding place_in
place_in-place quantum d p hq hd q_small d_small p_small =
    let r_small : p % d < 2 ^ 31 = omega (arith, mod-le p d) in
    let (item, rest) = long_quotient p d p_small d_small in
    let (s_pos, q_pos) = long_quotient (p % d) quantum r_small q_small in
    let checked : (d == 0 || quantum == 0) ≡ false = ground arith in
    rw (
      checked,
      lt→ltb d _ d_small,
      lt→ltb quantum _ q_small,
      item,
      rest,
      lt→ltb (p % d) _ r_small,
      s_pos,
      q_pos,
    )

pub locate-zero : (qset p : ℕ) → locate 0 qset p ≡ none
unfolding locate
locate-zero qset p = ground arith

row_fits :
    (quantum qset r i : ℕ) → r / quantum < qset → r % quantum + i < quantum → r + i < quantum * qset
row_fits quantum qset r i row inside = grind arith

module _ (quantum qset : ℕ) (shaped : IsShaped quantum qset) where
  itemsize_pos : 0 < quantum * qset
  itemsize_pos = grind arith

  pub quantum-le : quantum ≤ quantum * qset
  quantum-le = grind arith

  -- The source's arithmetic in `int` and `long` comes to plain division below 2 ^ 31.
  pub locate-place : (p : ℕ) → p < 2 ^ 31 → locate quantum qset p ≡ some (place quantum qset p)
  unfolding locate
  locate-place p small =
      ap (λ d. place_in quantum d p) (to_int_small (quantum * qset) shaped.small)
      ∙ place_in-place quantum (quantum * qset) p shaped.quantum_pos itemsize_pos
          (omega (arith, quantum-le, shaped.small)) shaped.small small

  -- A position is put together again from its place, and the offset lies in the quantum.
  pub place-rebuild :
      (p : ℕ)
      → (p
          ≡ (place quantum qset p).item * (quantum * qset)
            + ((place quantum qset p).s_pos * quantum + (place quantum qset p).q_pos))
        × ((place quantum qset p).q_pos < quantum)
        × ((place quantum qset p).s_pos < qset)
  place-rebuild p = grind arith

  -- Going on inside a quantum changes the offset alone.
  pub place-add :
      (p i : ℕ)
      → (place quantum qset p).q_pos + i < quantum
      → ((place quantum qset (p + i)).item ≡ (place quantum qset p).item)
        × ((place quantum qset (p + i)).s_pos ≡ (place quantum qset p).s_pos)
        × ((place quantum qset (p + i)).q_pos ≡ (place quantum qset p).q_pos + i)
  place-add p i inside =
      let r = p % (quantum * qset) in
      let (_, low, row) = place-rebuild p in
      let (outer, step) = carry (quantum * qset) p i (row_fits quantum qset r i row inside) in
      let (s, q) = carry quantum r i inside in
      (outer, ap (λ k. k / quantum) step ∙ s, ap (λ k. k % quantum) step ∙ q)

  place-forward :
      (pos p n : ℕ)
      → (place quantum qset pos).q_pos + n ≤ quantum
      → pos ≤ p
      → p < pos + n
      → ((place quantum qset p).item ≡ (place quantum qset pos).item)
        × ((place quantum qset p).s_pos ≡ (place quantum qset pos).s_pos)
        × ((place quantum qset p).q_pos ≡ (place quantum qset pos).q_pos + (p - pos))
  place-forward pos p n fits lo hi =
      let at : pos + (p - pos) ≡ p = omega arith in
      subst
        (λ x.
          ((place quantum qset x).item ≡ (place quantum qset pos).item)
          × ((place quantum qset x).s_pos ≡ (place quantum qset pos).s_pos)
          × ((place quantum qset x).q_pos ≡ (place quantum qset pos).q_pos + (p - pos)))
        at (place-add pos (p - pos) (omega arith))

  place-back :
      (pos p : ℕ)
      → (place quantum qset p).item ≡ (place quantum qset pos).item
      → (place quantum qset p).s_pos ≡ (place quantum qset pos).s_pos
      → p + (place quantum qset pos).q_pos ≡ pos + (place quantum qset p).q_pos
  place-back pos p item row = omega (
    arith,
    (place-rebuild p).0,
    (place-rebuild pos).0,
    ap (λ (k : ℕ). k * (quantum * qset)) item,
    ap (λ (k : ℕ). k * quantum) row,
  )

  -- A position lies among the `n` from `pos` on, which fit one quantum, exactly when it lies in that
  -- quantum and its offset among the `n` from that of `pos` on.
  pub place-range :
      (pos p n : ℕ)
      → (place quantum qset pos).q_pos + n ≤ quantum
      → (((place quantum qset p).item == (place quantum qset pos).item
            && (place quantum qset p).s_pos == (place quantum qset pos).s_pos)
          && (leb (place quantum qset pos).q_pos (place quantum qset p).q_pos
              && ltb (place quantum qset p).q_pos ((place quantum qset pos).q_pos + n)))
        ≡ (leb pos p && ltb p (pos + n))
  place-range pos p n fits = ground (arith, place-forward pos p n fits, place-back pos p)

  pub place-shift :
      (pos p n : ℕ)
      → (place quantum qset pos).q_pos + n ≤ quantum
      → pos ≤ p
      → p < pos + n
      → (place quantum qset p).q_pos - (place quantum qset pos).q_pos ≡ p - pos
  place-shift pos p n fits lo hi = omega (arith, (place-forward pos p n fits lo hi).2)
