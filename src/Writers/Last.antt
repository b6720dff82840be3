-- ===== src/Writers/Last.antt =====
-- lab_05/src/app3.c: what the file holds in the end.
use os6_bmstu_iu.Common.{
  ℕ, ◌+◌, ◌%◌, ◌≤◌, ◌≡◌, refl, ◌∙◌, Bool-cases, inl, inr, List, [], ◌∷◌, ◌++◌, append_assoc,
  append-nil, length, drop, drop-le, arith, ◌==◌, if◌then◌else◌,
}
use os6_bmstu_iu.Writers.{Written, fprintf, fclose, open_both, put_letters, close_both, main}

-- The letters of each stream.
abbrev pub odd_of : List ℕ → List ℕ
odd_of [] = []
odd_of (c ∷ cs) = if c % 2 == 0 then odd_of cs else c ∷ odd_of cs

abbrev pub even_of : List ℕ → List ℕ
even_of [] = []
even_of (c ∷ cs) = if c % 2 == 0 then c ∷ even_of cs else even_of cs

put_letters-split :
    (cs : List ℕ) (w : Written)
    → put_letters cs w ≡ record w {
      f1 = record w.f1 { buf = w.f1.buf ++ odd_of cs };
      f2 = record w.f2 { buf = w.f2.buf ++ even_of cs };
    }
unfolding put_letters
put_letters-split [] w = rw (append-nil w.f1.buf, append-nil w.f2.buf) refl
put_letters-split (c ∷ cs) w = elim (Bool-cases (c % 2 == 0)) [
  | inl even ↦ rw even (
      put_letters-split cs (record w { f2 = fprintf c w.f2 })
      ∙ rw (append_assoc w.f2.buf (c ∷ []) (even_of cs)) refl)
  | inr odd ↦ rw odd (
      put_letters-split cs (record w { f1 = fprintf c w.f1 })
      ∙ rw (append_assoc w.f1.buf (c ∷ []) (odd_of cs)) refl)
]

fclose-front :
    (buf bytes : List ℕ)
    → length bytes ≤ length buf
    → fclose (record { offset = 0; buf = buf }) bytes ≡ buf
unfolding fclose
fclose-front buf bytes le =
    let covered : drop (0 + length buf) bytes ≡ [] = drop-le (0 + length buf) bytes (omega arith) in
    rw covered (append-nil buf)

-- If the stream that is closed last has no fewer letters than the other one, the file holds its
-- letters only: it writes over those of the other, which getInfo has shown in the file before.
pub main-last :
    (cs : List ℕ)
    → length (odd_of cs) ≤ length (even_of cs)
    → ((main cs).bytes ≡ even_of cs)
      × ((main cs).shown
          ≡ (0, 0)
            ∷ (0, 0)
            ∷ (length (odd_of cs), length (odd_of cs))
            ∷ (length (even_of cs), length (even_of cs))
            ∷ [])
unfolding main close_both open_both
main-last cs le =
    let first : fclose (record { offset = 0; buf = odd_of cs }) [] ≡ odd_of cs =
      fclose-front (odd_of cs) [] (omega arith) in
    let second : fclose (record { offset = 0; buf = even_of cs }) (odd_of cs) ≡ even_of cs =
      fclose-front (even_of cs) (odd_of cs) le in
    let odds : 0 + length (odd_of cs) ≡ length (odd_of cs) = omega arith in
    let evens : 0 + length (even_of cs) ≡ length (even_of cs) = omega arith in
    (
      rw (put_letters-split cs, first, second) refl,
      rw (put_letters-split cs, first, second) (rw (odds, evens) refl),
    )
