-- ===== src/Procinfo/Maps/Hex.antt =====
-- Hexadecimal numbers as the kernel writes them and fprintPagemap reads them.
use os6_bmstu_iu.Common.{
  ℕ, zero, suc, ◌+◌, ◌-◌, ◌*◌, ◌/◌, ◌%◌, ◌<◌, ◌≡◌, inl, inr, refl, ap, sym, ◌∙◌, Bool-cases, some,
  List, [], ◌∷◌, ◌++◌, arith, ltb, if◌then◌else◌,
}
use os6_bmstu_iu.Procinfo.Maps.{word, digit}
use os6_bmstu_iu.Procinfo.Maps.Scan.{value_of, spell_hex, AreDigits}

-- `%jx`
unfoldable pub hex_char : ℕ → ℕ
hex_char d = if ltb d 10 then b'0' + d else b'a' + (d - 10)

unfoldable pub print_hex_in : (fuel n : ℕ) → List ℕ
print_hex_in zero n = []
print_hex_in (suc k) n =
    let front = print_hex_in k (n / 16) in
    if ltb n 16 then hex_char n ∷ [] else front ++ (hex_char (n % 16) ∷ [])

-- Each round but the last divides by sixteen, so `n + 1` rounds are enough.
unfoldable pub print_hex : ℕ → List ℕ
print_hex n = print_hex_in (suc n) n

digit-hex_char : (d : ℕ) → d < 16 → digit (hex_char d) ≡ some d
unfolding digit hex_char
digit-hex_char d lt = ground arith

value_of-hex_char : (d : ℕ) → d < 16 → value_of (hex_char d) ≡ d
unfolding value_of
value_of-hex_char d lt = rw (value_of, digit-hex_char d lt) refl

spell_hex-append : (v : ℕ) (s t : List ℕ) → spell_hex v (s ++ t) ≡ spell_hex (spell_hex v s) t
spell_hex-append v [] t = refl
spell_hex-append v (c ∷ s) t = spell_hex-append ((v * 16 + value_of c) % word) s t

pub append-AreDigits : (s t : List ℕ) → AreDigits s → AreDigits t → AreDigits (s ++ t)
append-AreDigits [] t hs ht = ht
append-AreDigits (c ∷ s) t hs ht = (hs.0, append-AreDigits s t (hs.1) ht)

one-AreDigits : (d : ℕ) → d < 16 → AreDigits (hex_char d ∷ [])
one-AreDigits d lt = (digit-hex_char d lt ∙ ap some (sym (value_of-hex_char d lt)), tt)

pub print_hex_in-AreDigits : (k n : ℕ) → AreDigits (print_hex_in k n)
unfolding print_hex_in
print_hex_in-AreDigits zero n = tt
print_hex_in-AreDigits (suc k) n = elim (Bool-cases (ltb n 16)) [
  | inl one ↦ rw one (one-AreDigits n (ground (arith, one)))
  | inr more ↦ rw more (
      append-AreDigits (print_hex_in k (n / 16)) (hex_char (n % 16) ∷ [])
        (print_hex_in-AreDigits k (n / 16)) (one-AreDigits (n % 16) (omega arith)))
]

spell_hex-print_hex_in : (k n : ℕ) → n < k → n < word → spell_hex 0 (print_hex_in k n) ≡ n
unfolding print_hex_in
spell_hex-print_hex_in zero n lt small = absurd (omega arith)
spell_hex-print_hex_in (suc k) n lt small = elim (Bool-cases (ltb n 16)) [
  | inl one ↦ let digit = value_of-hex_char n (ground (arith, one)) in rw (one, digit) (omega arith)
  | inr more ↦
      let front : spell_hex 0 (print_hex_in k (n / 16)) ≡ n / 16 =
        spell_hex-print_hex_in k (n / 16) (ground (arith, more)) (omega arith) in
      let digit = value_of-hex_char (n % 16) (omega arith) in
      rw (more, spell_hex-append 0 (print_hex_in k (n / 16)) (hex_char (n % 16) ∷ []), front, digit)
        (omega arith)
]

pub print_hex-AreDigits : (n : ℕ) → AreDigits (print_hex n)
unfolding print_hex
print_hex-AreDigits n = print_hex_in-AreDigits (suc n) n

pub spell_hex-print_hex : (n : ℕ) → n < word → spell_hex 0 (print_hex n) ≡ n
unfolding print_hex
spell_hex-print_hex n small = spell_hex-print_hex_in (suc n) n (omega arith) small
