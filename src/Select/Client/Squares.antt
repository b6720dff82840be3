-- ===== src/Select/Client/Squares.antt =====
-- lab_08/part2: a number that is typed in the client, and the answer of the server.
use os6_bmstu_iu.Common.{
  ℕ, zero, suc, ◌+◌, ◌-◌, ◌*◌, ◌/◌, ◌%◌, ◌^◌, ◌≤◌, ◌<◌, ◌≡◌, refl, ◌∙◌, true, false, Bool-cases,
  inl, inr, List, [], ◌∷◌, ◌++◌, ltb, leb, lt→ltb, le→leb, leb_of_lt, ◌==◌, ==_ne, arith, print,
  print_in, spell, spell-print,
}
use os6_bmstu_iu.Select.{squared, answer, atoi, digits}

-- All bytes are decimal digits.
abbrev AreDecimal : List ℕ → Type 0
AreDecimal [] = Unit {0}
AreDecimal (c ∷ s) = (b'0' ≤ c) × (c ≤ b'9') × AreDecimal s

append-AreDecimal : (s t : List ℕ) → AreDecimal s → AreDecimal t → AreDecimal (s ++ t)
append-AreDecimal [] t hs ht = ht
append-AreDecimal (c ∷ s) t hs ht = (hs.0, hs.1, append-AreDecimal s t (hs.2) ht)

print_in-AreDecimal : (k n : ℕ) → AreDecimal (print_in k n)
unfolding print_in
print_in-AreDecimal zero n = tt
print_in-AreDecimal (suc k) n = elim (Bool-cases (ltb n 10)) [
  | inl one ↦ rw one (omega arith, ground (arith, one), tt)
  | inr more ↦ rw more (
      append-AreDecimal (print_in k (n / 10)) ((b'0' + n % 10) ∷ [])
        (print_in-AreDecimal k (n / 10)) (omega arith, omega arith, tt))
]

digits-append : (n : ℕ) (s rest : List ℕ) → AreDecimal s → digits n (s ++ (0 ∷ rest)) ≡ spell n s
digits-append n [] rest h = refl
digits-append n (c ∷ s) rest h =
    let same : 10 * n + (c - b'0') ≡ n * 10 + (c - b'0') = omega arith in
    rw (le→leb (b'0') c (h.0), le→leb c (b'9') (h.1), same)
      (digits-append (n * 10 + (c - b'0')) s rest (h.2))

-- A digit is neither a space nor a sign.
atoi-digits : (s rest : List ℕ) → AreDecimal s → atoi (s ++ (0 ∷ rest)) ≡ digits 0 (s ++ (0 ∷ rest))
atoi-digits [] rest h = refl
atoi-digits (c ∷ s) rest h =
    let no_space : c == 32 ≡ false = ==_ne c 32 (λ e. omega (arith, h.0)) in
    let no_tab : leb c 13 ≡ false = leb_of_lt c 13 (omega (arith, h.0)) in
    let tab : leb 9 c ≡ true = le→leb 9 c (omega (arith, h.0)) in
    let no_minus : c == b'-' ≡ false = ==_ne c (b'-') (λ e. omega (arith, h.0)) in
    let no_plus : c == b'+' ≡ false = ==_ne c (b'+') (λ e. omega (arith, h.0)) in
    rw (no_space, tab, no_tab, no_minus, no_plus) refl

-- A number that is typed without a sign, and whose square fits into an int, is answered by its square.
pub answer-print :
    (n : ℕ) (rest : List ℕ)
    → 0 < n
    → n * n < 2 ^ 31
    → answer (print n ++ (0 ∷ rest)) ≡ squared (n * n)
unfolding print
answer-print n rest positive small =
    let read : atoi (print n ++ (0 ∷ rest)) ≡ n =
      atoi-digits (print n) rest (print_in-AreDecimal (suc n) n)
      ∙ digits-append 0 (print n) rest (print_in-AreDecimal (suc n) n)
      ∙ spell-print n in
    rw (read, ==_ne n 0 (λ e. omega arith), lt→ltb (n * n) (2 ^ 31) small) refl
