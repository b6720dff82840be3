-- ===== src/Turns/Tests.antt =====
-- The theorems on two threads that print a file of one byte each, the second one first.
use os6_bmstu_iu.Common.{◌+◌, ◌*◌, ◌≤◌, ◌≡◌, ◌⊎◌, refl, [], ◌∷◌, ◌++◌, codes, length}
use os6_bmstu_iu.Alphabet.{Thread, first, second}
use os6_bmstu_iu.Turns.{
  returned, failed, System, Step, create, newline, lock, read, at_end, write, unlock, join, Reach,
  begin, next,
}
use os6_bmstu_iu.Turns.Moves.{letters, by, other}
use os6_bmstu_iu.Turns.Whole.{letters-returned}
use os6_bmstu_iu.Turns.Ends.{steps, reach-Ends}

-- The other thread takes the mutex while `main` writes its line feed.
abbrev finished : (s : System) × Reach (codes "A") s
finished = (
  _,
  next
      (next
        (next
          (next
            (next
              (next
                (next
                  (next
                    (next
                      (next
                        (next (next (next begin (create refl refl)) (lock second refl refl))
                          (newline refl))
                        (read second b'A' refl refl))
                      (write second b'A' refl))
                    (at_end second refl refl))
                  (unlock second refl))
                (lock first refl refl))
              (read first b'A' refl refl))
            (write first b'A' refl))
          (at_end first refl refl))
        (unlock first refl))
      (join refl refl),
)

letters-returned_example :
    (t : Thread) × (letters (finished.0.out) ≡ by t (codes "A") ++ by (other t) (codes "A"))
letters-returned_example = letters-returned (codes "A") (finished.0) (finished.1) refl

reach-Ends_example :
    (steps (finished.1) ≤ 4 * length (codes "A") + 12)
    × (((finished.0.stage first ≡ returned) ⊎ (finished.0.stage first ≡ failed))
        ⊎ ((s' : System) × Step (codes "A") (finished.0) s'))
reach-Ends_example = reach-Ends (codes "A") (finished.0) (finished.1)

-- The letters are those of the thread that came first.
finished-letters : letters (finished.0.out) ≡ (second, b'A') ∷ (first, b'A') ∷ []
finished-letters = refl
