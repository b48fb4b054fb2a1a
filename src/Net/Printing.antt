-- ===== src/Net/Printing.antt =====
-- What the loop of `my_start_xmit` in network/lab3_transmit.c and lab4_receive.c prints.
use ldd_samples.Prelude.{
  ℕ, zero, suc, ◌+◌, ◌-◌, ◌*◌, ◌^◌, ◌≤◌, ◌<◌, ◌≡◌, refl, ◌∙◌, ap, sym, Bool, true, false, Option,
  none, some, List, [], ◌∷◌, ◌++◌, length, take, drop, take-drop, take-all, length-take-le,
  length-drop, drop-length, drop-drop, ltb, arith, if◌then◌else◌,
}
use ldd_samples.Kernel.Word.{to_int}
use ldd_samples.Net.Driver.{printline, print_lines}

-- The lines put together.
abbrev pub concat : List (List ℕ) → List ℕ
concat [] = []
concat (line ∷ lines) = line ++ concat lines

-- Each line and its end fit `line`, which has 256 characters.
abbrev pub Fit : List (List ℕ) → Type 0
Fit [] = Unit
Fit (line ∷ lines) = (length line < 256) × Fit lines

printline-append : (xs ys : List ℕ) → printline (xs ++ ys) ≡ printline xs ++ printline ys
unfolding printline
printline-append [] ys = refl
printline-append (x ∷ xs) ys = cc (printline-append xs ys)

length-printline : (xs : List ℕ) → length (printline xs) ≡ 3 * length xs
unfolding printline
length-printline [] = refl
length-printline (x ∷ xs) = omega (arith, length-printline xs)

-- The part of the bytes that goes on one line.
row-take :
    (i : ℕ) (bytes : List ℕ)
    → take (if ltb (length bytes - i) 16 then length bytes - i else 16) (drop i bytes)
      ≡ take 16 (drop i bytes)
row-take i bytes = pick (ltb (length bytes - i) 16) refl
  where
    pick :
        (b : Bool)
        → ltb (length bytes - i) 16 ≡ b
        → take (if b then length bytes - i else 16) (drop i bytes) ≡ take 16 (drop i bytes)
    pick false e = refl
    pick true e =
        take-all (length bytes - i) (drop i bytes) (omega (arith, length-drop i bytes))
        ∙ sym (take-all 16 (drop i bytes) (ground (arith, e, length-drop i bytes)))

-- What the loop has printed from `i` on.
abbrev Printed : (fuel i : ℕ) (bytes : List ℕ) → Type 0
Printed fuel i bytes =
    (lines : List (List ℕ)) × (print_lines fuel i bytes ≡ some lines)
    × (concat lines ≡ printline (drop i bytes))
    × Fit lines

Printed-step :
    (fuel i : ℕ) (bytes : List ℕ)
    → length bytes + 16 < 2 ^ 31
    → (i < length bytes → Printed fuel (i + 16) bytes)
    → Printed (suc fuel) i bytes
unfolding print_lines
Printed-step fuel i bytes small later = split (ltb i (length bytes)) refl
  where
    row : List ℕ
    row =
        printline (take (if ltb (length bytes - i) 16 then length bytes - i else 16) (drop i bytes))

    added : Option (List (List ℕ)) → Option (List (List ℕ))
    added o = elim o [ none ↦ none | some lines ↦ some (row ∷ lines) ]

    round :
        (b : Bool)
        → ltb i (length bytes) ≡ b
        → print_lines (suc fuel) i bytes ≡ (
            if b
            then (if ltb i (2 ^ 31) then added (print_lines fuel (to_int (i + 16)) bytes) else none)
            else some [])
    round b e =
        ap
          (λ c.
            if c
            then (if ltb i (2 ^ 31) then added (print_lines fuel (to_int (i + 16)) bytes) else none)
            else some [])
          e

    low : {j : ℕ} → j < 2 ^ 31 → ltb j (2 ^ 31) ≡ true
    low lt = ground (arith, lt)

    split : (b : Bool) → ltb i (length bytes) ≡ b → Printed (suc fuel) i bytes
    split false e =
        ([], round false e, ap printline (sym (drop-length i bytes (ground (arith, e)))), tt)
    split true e =
        let inside : i < length bytes = ground (arith, e) in
        let (lines, runs, whole, fit) = later inside in
        let next : print_lines fuel (to_int (i + 16)) bytes ≡ some lines =
          ap (λ j. print_lines fuel j bytes) (omega (arith, inside, small)) ∙ runs in
        (
          row ∷ lines,
          round true e
              ∙ ap (λ c. if c then added (print_lines fuel (to_int (i + 16)) bytes) else none)
                  (low (omega (arith, inside, small)))
              ∙ ap added next,
          ap (λ r. printline r ++ concat lines) (row-take i bytes)
              ∙ ap (λ r. printline (take 16 (drop i bytes)) ++ r)
                  (whole ∙ ap printline (sym (drop-drop 16 i bytes)))
              ∙ sym (printline-append (take 16 (drop i bytes)) (drop 16 (drop i bytes)))
              ∙ ap printline (take-drop 16 (drop i bytes)),
          (
            omega (
              arith,
              length-printline (
                  take (if ltb (length bytes - i) 16 then length bytes - i else 16) (drop i bytes)),
              ap length (row-take i bytes),
              length-take-le 16 (drop i bytes),
            ),
            fit,
          ),
        )

print_lines-Printed :
    (fuel i : ℕ) (bytes : List ℕ)
    → length bytes + 16 < 2 ^ 31
    → i < length bytes + 16
    → length bytes + 16 ≤ i + 16 * fuel
    → Printed fuel i bytes
print_lines-Printed zero i bytes small near enough = absurd (omega (arith, near, enough))
print_lines-Printed (suc fuel) i bytes small near enough =
    Printed-step fuel i bytes small (λ inside.
      print_lines-Printed fuel (i + 16) bytes small (omega (arith, inside)) (omega (arith, enough)))

-- A packet of less than 2 ^ 31 - 16 bytes is printed whole, with fuel of as many rounds as it has bytes and
-- one more: the lines put together are what one line of all its bytes would be, and each with its end fits the
-- 256 characters that `printline` has for it.
pub print_lines-whole :
    (fuel : ℕ) (bytes : List ℕ)
    → length bytes + 16 < 2 ^ 31
    → length bytes + 1 ≤ fuel
    → (lines : List (List ℕ)) × (print_lines fuel 0 bytes ≡ some lines)
      × (concat lines ≡ printline bytes)
      × Fit lines
print_lines-whole fuel bytes small enough =
    print_lines-Printed fuel 0 bytes small (omega arith) (omega (arith, enough))
