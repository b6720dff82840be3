-- ===== src/Common/Decimal.antt =====
-- `%d` and `%ld` of numbers that are not negative, and the number that digits spell.
use Prim.Native.Nat.{ℕ, zero, suc, ◌+◌, ◌-◌, ◌*◌, ◌/◌, ◌%◌, ◌<◌}
use mathlib.Core.Path.{◌≡◌, refl}
use mathlib.Core.List.{List, [], ◌∷◌, ◌++◌}
use native.Mathlib.Omega.{arith}
use os6_bmstu_iu.Common.Tests.{ltb, if◌then◌else◌, Bool-cases}
use mathlib.Core.Logic.{inl, inr}

-- The digits of `n`, in at most `fuel` rounds.
unfoldable pub print_in : (fuel n : ℕ) → List ℕ
print_in zero n = []
print_in (suc k) n =
    let front = print_in k (n / 10) in
    if ltb n 10 then (b'0' + n) ∷ [] else front ++ ((b'0' + n % 10) ∷ [])

-- Each round but the last divides by ten, so `n + 1` rounds are enough.
unfoldable pub print : ℕ → List ℕ
unfolding print_in
print n = print_in (suc n) n

-- The number that digits spell behind `n`.
abbrev pub spell : ℕ → List ℕ → ℕ
spell n [] = n
spell n (c ∷ cs) = spell (n * 10 + (c - b'0')) cs

pub spell-append : (n : ℕ) (xs ys : List ℕ) → spell n (xs ++ ys) ≡ spell (spell n xs) ys
spell-append n [] ys = refl
spell-append n (x ∷ xs) ys = spell-append (n * 10 + (x - b'0')) xs ys

spell-print_in : (fuel n : ℕ) → n < fuel → spell 0 (print_in fuel n) ≡ n
unfolding print_in
spell-print_in zero n h = absurd (omega arith)
spell-print_in (suc k) n h = elim (Bool-cases (ltb n 10)) [
  | inl one ↦ rw one (omega arith)
  | inr more ↦
      let front : spell 0 (print_in k (n / 10)) ≡ n / 10 =
        spell-print_in k (n / 10) (ground (arith, more)) in
      rw (more, spell-append 0 (print_in k (n / 10)) ((b'0' + n % 10) ∷ []), front) (omega arith)
]

-- What is printed spells the number.
pub spell-print : (n : ℕ) → spell 0 (print n) ≡ n
unfolding print
spell-print n = spell-print_in (suc n) n (omega arith)
