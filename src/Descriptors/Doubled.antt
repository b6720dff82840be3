-- ===== src/Descriptors/Doubled.antt =====
-- lab_05/src/app2.c: every byte is written twice.
use os6_bmstu_iu.Common.{
  ℕ, zero, suc, ◌<◌, ◌≡◌, refl, ap, ◌∙◌, none, some, List, [], ◌∷◌, ◌++◌, append_assoc, append-nil,
  length, arith,
}
use os6_bmstu_iu.Descriptors.{Descriptor, round, loop, main}

-- What is left behind an offset.
abbrev pub left : Descriptor → List ℕ
left none = []
left (some rest) = rest

-- Bytes of both in turn, and what one has more.
abbrev pub in_turn : List ℕ → List ℕ → List ℕ
in_turn [] ys = ys
in_turn (x ∷ xs) [] = x ∷ xs
in_turn (x ∷ xs) (y ∷ ys) = x ∷ y ∷ in_turn xs ys

in_turn-nil : (xs : List ℕ) → in_turn xs [] ≡ xs
in_turn-nil [] = refl
in_turn-nil (x ∷ xs) = refl

loop-in_turn :
    (k : ℕ) (fd1 fd2 : Descriptor) (out : List ℕ)
    → length (left fd1) < k
    → length (left fd2) < k
    → loop k fd1 fd2 out ≡ some (out ++ in_turn (left fd1) (left fd2))
unfolding loop round
loop-in_turn zero fd1 fd2 out lt1 lt2 = absurd (omega arith)
loop-in_turn (suc k) none none out lt1 lt2 = ap some (append-nil (out ++ []))
loop-in_turn (suc k) none (some []) out lt1 lt2 = ap some (append-nil (out ++ []))
loop-in_turn (suc k) none (some (d ∷ r2)) out lt1 lt2 =
    loop-in_turn k none (some r2) ((out ++ []) ++ (d ∷ [])) (omega arith) (omega arith)
    ∙ ap some (simp (append-nil, append_assoc))
loop-in_turn (suc k) (some []) none out lt1 lt2 = ap some (append-nil (out ++ []))
loop-in_turn (suc k) (some []) (some []) out lt1 lt2 = ap some (append-nil (out ++ []))
loop-in_turn (suc k) (some []) (some (d ∷ r2)) out lt1 lt2 =
    loop-in_turn k (some []) (some r2) ((out ++ []) ++ (d ∷ [])) (omega arith) (omega arith)
    ∙ ap some (simp (append-nil, append_assoc))
loop-in_turn (suc k) (some (c ∷ r1)) none out lt1 lt2 =
    loop-in_turn k (some r1) none ((out ++ (c ∷ [])) ++ []) (omega arith) (omega arith)
    ∙ ap some (simp (append-nil, append_assoc, in_turn-nil))
loop-in_turn (suc k) (some (c ∷ r1)) (some []) out lt1 lt2 =
    loop-in_turn k (some r1) (some []) ((out ++ (c ∷ [])) ++ []) (omega arith) (omega arith)
    ∙ ap some (simp (append-nil, append_assoc, in_turn-nil))
loop-in_turn (suc k) (some (c ∷ r1)) (some (d ∷ r2)) out lt1 lt2 =
    loop-in_turn k (some r1) (some r2) ((out ++ (c ∷ [])) ++ (d ∷ [])) (omega arith) (omega arith)
    ∙ ap some (simp (append-nil, append_assoc))

-- Each byte twice.
abbrev pub doubled : List ℕ → List ℕ
doubled [] = []
doubled (x ∷ xs) = x ∷ x ∷ doubled xs

in_turn-doubled : (xs : List ℕ) → in_turn xs xs ≡ doubled xs
in_turn-doubled [] = refl
in_turn-doubled (x ∷ xs) = ap (λ r. x ∷ x ∷ r) (in_turn-doubled xs)

-- Since each descriptor has its own offset, the program ends after one round more than the file has
-- bytes, and has written each byte twice, in the order of the file, and a line end.
pub main-doubled :
    (file : List ℕ)
    → main (suc (length file)) (some file) (some file) ≡ some (doubled file ++ (10 ∷ []))
unfolding main
main-doubled file =
    rw
      (
        loop-in_turn (suc (length file)) (some file) (some file) [] (omega arith) (omega arith),
        in_turn-doubled file,
      )
      refl

-- If one `open` fails, it has written each byte once.
pub main-once :
    (file : List ℕ) → main (suc (length file)) (some file) none ≡ some (file ++ (10 ∷ []))
unfolding main
main-once file =
    rw
      (
        loop-in_turn (suc (length file)) (some file) none [] (omega arith) (omega arith),
        in_turn-nil file,
      )
      refl
