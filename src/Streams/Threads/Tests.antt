-- ===== src/Streams/Threads/Tests.antt =====
-- The theorem on two threads over one open file of a letter and a line feed.
use os6_bmstu_iu.Common.{ℕ, ◌+◌, ◌*◌, ◌≤◌, ◌≡◌, ◌≢◌, ◌⊎◌, refl, false, List, [], ◌∷◌, length, times}
use os6_bmstu_iu.Alphabet.{first, second}
use os6_bmstu_iu.Streams.Threads.{
  is_space, asking, stopped, returned, System, Step, fill, read, at_end, skip, no_more, fprintf,
  join, Reach, begin, next,
}
use os6_bmstu_iu.Streams.Threads.Ends.{steps, reach-Printed}

abbrev file : List ℕ
file = b'A' ∷ b'\n' ∷ []

-- The thread that was created comes first and prints the letter.
abbrev finished : (s : System) × Reach file s
finished = (
  _,
  next
      (next
        (next
          (next
            (next
              (next
                (next (next begin (fill second asking b'A' (b'\n' ∷ []) refl refl refl))
                  (read second b'A' (b'\n' ∷ []) refl))
                (skip second b'A' b'\n' [] refl refl))
              (at_end first refl refl))
            (no_more second b'A' refl refl))
          (fprintf second b'A' [] refl))
        (at_end second refl refl))
      (join [] [] refl refl),
)

reach-Printed_example :
    (steps (finished.1) ≤ 6 * length file + 4)
    × ((((finished.0.at first).0 ≡ returned)
          × ((finished.0.at second).0 ≡ stopped)
          × ((c : ℕ) → is_space c ≡ false → times c (finished.0.out) ≡ times c file))
        ⊎ (((finished.0.at first).0 ≢ returned) × ((s' : System) × Step (finished.0) s')))
reach-Printed_example = reach-Printed file (finished.0) (finished.1)

finished-out : finished.0.out ≡ b'A' ∷ b'\n' ∷ b'\n' ∷ []
finished-out = refl
