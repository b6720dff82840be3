-- ===== src/Dirwalk/Stats/Table.antt =====
-- The table that `printStat` of lab_02/lib/statistics.c prints.
use os6_bmstu_iu.Common.{
  ℕ, ◌+◌, ◌*◌, ◌/◌, ◌^◌, ◌≤◌, ◌<◌, ◌≡◌, refl, none, some, List, [], ◌∷◌, arith,
}
use os6_bmstu_iu.Dirwalk.Stats.{Stats, find_percent, row, print_stat}
use os6_bmstu_iu.Dirwalk.Stats.Counting.{total}

-- With a part of a small total that is not zero, a line has the rounded share.
row-share :
    (part all : ℕ)
    → part ≤ all
    → 0 < all
    → all * 100 < 2 ^ 31
    → row part all ≡ some (part, part * 100 / all)
unfolding row find_percent
row-share part all le pos small = ground arith

row-zero : (part : ℕ) → row part 0 ≡ none
unfolding row find_percent
row-zero part = ground arith

-- The sum of the shares of a table.
abbrev pub shares : List (ℕ × ℕ) → ℕ
shares [] = 0
shares ((n, p) ∷ rows) = p + shares rows

-- The counters in the order in which they are printed.
abbrev pub counts : List (ℕ × ℕ) → List ℕ
counts [] = []
counts ((n, p) ∷ rows) = n ∷ counts rows

abbrev table : Stats → List (ℕ × ℕ)
table s =
    let t = total s in
    (s.nreg, s.nreg * 100 / t)
    ∷ (s.ndir, s.ndir * 100 / t)
    ∷ (s.nblk, s.nblk * 100 / t)
    ∷ (s.nchr, s.nchr * 100 / t)
    ∷ (s.nfifo, s.nfifo * 100 / t)
    ∷ (s.nslink, s.nslink * 100 / t)
    ∷ (s.nsock, s.nsock * 100 / t)
    ∷ []

print_stat-table :
    (s : Stats)
    → 0 < total s
    → total s * 100 < 2 ^ 31
    → print_stat s ≡ some (record s { ntotal = total s }, table s)
unfolding print_stat
print_stat-table s pos small =
    let t = total s in
    rw (
      row-share s.nreg t (omega arith) pos small,
      row-share s.ndir t (omega arith) pos small,
      row-share s.nblk t (omega arith) pos small,
      row-share s.nchr t (omega arith) pos small,
      row-share s.nfifo t (omega arith) pos small,
      row-share s.nslink t (omega arith) pos small,
      row-share s.nsock t (omega arith) pos small,
    )

quotient_bounds :
    (p t : ℕ) → 0 < t → (p * 100 / t * t ≤ p * 100) × (p * 100 < (p * 100 / t + 1) * t)
quotient_bounds p t pos = omega arith

le_of_scaled : (a b t : ℕ) → a * t < b * t → a < b
le_of_scaled a b t h = grind arith

-- Seven rounded shares of a whole.
share_sum :
    (a b c d e f g t : ℕ)
    → a + b + c + d + e + f + g ≡ t
    → 0 < t
    → let sum =
        a * 100 / t
        + b * 100 / t
        + c * 100 / t
        + d * 100 / t
        + e * 100 / t
        + f * 100 / t
        + g * 100 / t in
      (94 ≤ sum) × (sum ≤ 100)
share_sum a b c d e f g t whole pos =
    let qa = quotient_bounds a t pos in
    let qb = quotient_bounds b t pos in
    let qc = quotient_bounds c t pos in
    let qd = quotient_bounds d t pos in
    let qe = quotient_bounds e t pos in
    let qf = quotient_bounds f t pos in
    let qg = quotient_bounds g t pos in
    let sum =
      a * 100 / t
      + b * 100 / t
      + c * 100 / t
      + d * 100 / t
      + e * 100 / t
      + f * 100 / t
      + g * 100 / t in
    let low : 100 < sum + 7 = le_of_scaled 100 (sum + 7) t (omega arith) in
    let high : sum < 101 = le_of_scaled sum 101 t (omega arith) in (omega arith, omega arith)

-- With at least one file, and few enough that `part * 100` stays in an `int`, the table is
-- printed: it has the counters in order, the total is their sum, and the shares, each rounded
-- down, add up to between 94 and 100 percent.
pub print_stat-shares :
    (s : Stats)
    → 0 < total s
    → total s * 100 < 2 ^ 31
    → (s' : Stats) × (rows : List (ℕ × ℕ)) × (print_stat s ≡ some (s', rows))
      × (s' ≡ record s { ntotal = total s })
      × (counts rows ≡ s.nreg ∷ s.ndir ∷ s.nblk ∷ s.nchr ∷ s.nfifo ∷ s.nslink ∷ s.nsock ∷ [])
      × (94 ≤ shares rows)
      × (shares rows ≤ 100)
print_stat-shares s pos small =
    let sum =
      share_sum s.nreg s.ndir s.nblk s.nchr s.nfifo s.nslink s.nsock (total s) (omega arith) pos in
    (
      record s { ntotal = total s },
      table s,
      print_stat-table s pos small,
      refl,
      refl,
      omega arith,
      omega arith,
    )

-- With no file counted the program divides by zero.
pub print_stat-none : (s : Stats) → total s ≡ 0 → print_stat s ≡ none
unfolding print_stat
print_stat-none s empty = rw (empty, row-zero s.nreg)
