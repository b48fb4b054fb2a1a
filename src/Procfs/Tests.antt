-- ===== src/Procfs/Tests.antt =====
-- A write and a read of debug/debug_lab2_procfs.c, with kernel functions that meet no fault.
use ldd_samples.Prelude.{
  ℕ, zero, suc, ◌+◌, ◌-◌, ◌≤◌, ◌<◌, ◌≡◌, ◌≢◌, refl, ◌∙◌, ap, some, arith, ltb, leb, ◌&&◌, ◌==◌, inl,
  inr, ◌⊎◌, if◌then◌else◌,
}
use ldd_samples.Kernel.{Ret, ret}
use ldd_samples.Kernel.Memory.{Mem}
use ldd_samples.Procfs.File.{
  maxbuff, WriteFn, ReadFn, IsWrite, IsRead, IsStrlen, procfile_write, procfile_read,
}
use ldd_samples.Procfs.Text.{behind, write-read}

-- The bytes that fit.
abbrev room : (len available pos : ℕ) → ℕ
room len available pos = if ltb len (available - pos) then len else available - pos

abbrev whole_write : WriteFn
whole_write to available pos from buf len = (
  (λ a. if leb pos a && ltb a (pos + room len available pos) then from (buf + (a - pos)) else to a),
  pos + room len available pos,
  ret (room len available pos),
)

abbrev whole_read : ReadFn
whole_read to buf len pos from available = (
  (λ a. if leb buf a && ltb a (buf + room len available pos) then from (pos + (a - buf)) else to a),
  pos + room len available pos,
  ret (room len available pos),
)

number : Ret → ℕ
number (ret n) = n
number r = 0

ret-number : (m n : ℕ) → ret m ≡ ret n → m ≡ n
unfolding number
ret-number m n e = ap number e

moved :
    (at start i n : ℕ) (from to : Mem)
    → i < n
    → (if leb at (at + i) && ltb (at + i) (at + n)
        then from (start + (at + i - at))
        else to (at + i))
      ≡ from (start + i)
moved at start i n from to lt = ground (arith, lt, ap from (back at start i))
  where
    back : (at start i : ℕ) → start + (at + i - at) ≡ start + i
    back at start i = omega arith

whole_write-IsWrite : IsWrite whole_write
whole_write-IsWrite = record {
  fits = λ to available pos from buf len n inside e.
      ground (arith, inside, ret-number (room len available pos) n e);
  copied = λ to available pos from buf len n i e lt.
      moved pos buf i (room len available pos) from to
        (omega (arith, lt, ret-number (room len available pos) n e));
}

whole_read-IsRead : IsRead whole_read
whole_read-IsRead = record {
  fits = λ to buf len pos from available n inside e.
      ground (arith, inside, ret-number (room len available pos) n e);
  copied = λ to buf len pos from available n i e lt.
      moved buf pos i (room len available pos) from to
        (omega (arith, lt, ret-number (room len available pos) n e));
}

-- The first zero from `i` on, among `fuel` bytes.
scan : (fuel i : ℕ) → Mem → ℕ
scan zero i text = i
scan (suc fuel) i text = let rest = scan fuel (i + 1) text in if text i == 0 then i else rest

scan-ends : (fuel i n : ℕ) (text : Mem) → i ≤ n → text n ≡ 0 → scan fuel i text ≤ n
unfolding scan
scan-ends zero i n text le e = le
scan-ends (suc fuel) i n text le e = elim (cases i n le) [
  | inl same ↦ (let zero : text i ≡ 0 = ap text same ∙ e in ground (arith, zero, le))
  | inr more ↦ (let rest = scan-ends fuel (i + 1) n text more e in ground (arith, rest, le))
]
  where
    cases : (i n : ℕ) → i ≤ n → (i ≡ n) ⊎ (i + 1 ≤ n)
    cases i n le = ground arith

scan-runs :
    (fuel i n : ℕ) (text : Mem)
    → n ≤ i + fuel
    → ((j : ℕ) → j < n → text j ≢ 0)
    → n ≤ scan fuel i text
unfolding scan
scan-runs zero i n text le h = omega (arith, le)
scan-runs (suc fuel) i n text le h =
    ground (arith, h i, scan-runs fuel (i + 1) n text (omega (arith, le)) h)

abbrev strlen : Mem → ℕ
strlen text = scan maxbuff 0 text

strlen-IsStrlen : IsStrlen strlen
strlen-IsStrlen = record {
  ends = λ text n le e. scan-ends maxbuff 0 n text (omega arith) e;
  runs = λ text n le e h. scan-runs maxbuff 0 n text (omega (arith, le)) h;
}

abbrev hello : Mem
hello i = 7

abbrev old : Mem
old i = 0

write-read_example :
    (procfile_write whole_write old 0 hello 20 3
      ≡ some
          (behind whole_write-IsWrite whole_read-IsRead strlen-IsStrlen old hello 20 3 3, 3, ret 3))
    × (strlen (behind whole_write-IsWrite whole_read-IsRead strlen-IsStrlen old hello 20 3 3) ≡ 3)
    × ((procfile_read whole_read strlen
            (behind whole_write-IsWrite whole_read-IsRead strlen-IsStrlen old hello 20 3 3)
            0
            old
            50
            10).0
          51
        ≡ 7)
unfolding procfile_read scan
write-read_example =
    write-read whole_write-IsWrite whole_read-IsRead strlen-IsStrlen old hello 20 3 3 old 50 10 3 1
      (omega arith) refl (λ j lt z. omega (arith, z)) refl (omega arith)
