-- ===== src/Writers/Tests.antt =====
-- lab_05/src/app3.c and app3_threads.c: the letters of the programs.
use os6_bmstu_iu.Common.{
  ℕ, zero, suc, ◌+◌, ◌*◌, ◌≡◌, ◌≤◌, ◌⊎◌, refl, codes, List, [], ◌∷◌, ◌++◌, length, arith,
}
use os6_bmstu_iu.Writers.{letters}
use os6_bmstu_iu.Writers.Last.{odd_of, even_of, main-last}
use os6_bmstu_iu.Writers.Appended.{
  Thread, Stage, put, launched, main, opened, Shared, fopen, fprintf, fclose, Reach, begin, next,
  all_of, bytes-closed,
}

main-last_example :
    ((os6_bmstu_iu.Writers.main letters).bytes ≡ even_of letters)
    × ((os6_bmstu_iu.Writers.main letters).shown
        ≡ (0, 0)
          ∷ (0, 0)
          ∷ (length (odd_of letters), length (odd_of letters))
          ∷ (length (even_of letters), length (even_of letters))
          ∷ [])
main-last_example = main-last letters (omega arith)

put-same : (t : Thread) (v : Stage) (g : Thread → Stage) → put t v g t ≡ v
put-same launched v g = refl
put-same main v g = refl

-- A thread that has opened its stream writes `k` letters more.
abbrev types :
    (k : ℕ) (t : Thread) (c : ℕ) (buf : List ℕ) (s : Shared)
    → Reach (codes "#") s
    → s.stage t ≡ opened c buf
    → c + 2 * k ≤ 92
    → (s' : Shared) × Reach (codes "#") s'
types zero t c buf s r e le = (s, r)
types (suc k) t c buf s r e le =
    types k t (c + 2) (buf ++ (c ∷ []))
      (record s { stage = put t (opened (c + 2) (buf ++ (c ∷ []))) s.stage })
      (next r (fprintf t c buf e (omega arith)))
      (put-same t (opened (c + 2) (buf ++ (c ∷ []))) s.stage) (omega arith)

abbrev both_open : (s : Shared) × Reach (codes "#") s
both_open = (_, next (next begin (fopen launched refl)) (fopen main refl))

abbrev one_full : (s : Shared) × Reach (codes "#") s
one_full = types 13 launched (b'A') [] (both_open.0) (both_open.1) refl (omega arith)

abbrev both_full : (s : Shared) × Reach (codes "#") s
both_full = types 13 main (b'B') [] (one_full.0) (one_full.1) refl (omega arith)

abbrev both_closed : (s : Shared) × Reach (codes "#") s
both_closed = (
  _,
  next (next (both_full.1) (fclose main 92 (all_of main) refl (omega arith)))
      (fclose launched 91 (all_of launched) refl (omega arith)),
)

bytes-closed_example :
    (both_closed.0.bytes ≡ (codes "#" ++ all_of launched) ++ all_of main)
    ⊎ (both_closed.0.bytes ≡ (codes "#" ++ all_of main) ++ all_of launched)
bytes-closed_example = bytes-closed (codes "#") (both_closed.0) (both_closed.1) refl refl
