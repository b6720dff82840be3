-- ===== src/Fortune/Tests.antt =====
-- The theorems on lab_04/part2 at two short fortunes.
use os6_bmstu_iu.Common.{
  ℕ, ◌*◌, ◌≡◌, refl, none, some, List, [], ◌∷◌, pos, codes, replicate, length-replicate, arith,
}
use os6_bmstu_iu.Fortune.Cookie.{Fortune, fresh, write_fortune}
use os6_bmstu_iu.Fortune.Cookie.Shape.{Holds, fresh-Holds}
use os6_bmstu_iu.Fortune.Cookie.Write.{write_fortune-Holds}
use os6_bmstu_iu.Fortune.Cookie.Refuse.{write_fortune-overflow}
use os6_bmstu_iu.Fortune.Cookie.Session.{Message, write_all, read_all, write_all-read_all}
use os6_bmstu_iu.Fortune.Queue.{Event, writes, reads, run_cookie, run_seq, seq_fresh, run-queue}

-- "hi", "yo"
abbrev hi : Message
hi = (codes "h", b'i')

abbrev yo : Message
yo = (codes "y", b'o')

write_all-read_all_example :
    (s : Fortune) × (write_all (hi ∷ yo ∷ []) fresh ≡ some s)
    × (read_all (2 * 2) s
        ≡ some (codes "h\n\n" ∷ codes "y\n\n" ∷ codes "h\n\n" ∷ codes "y\n\n" ∷ []))
write_all-read_all_example =
    write_all-read_all (hi ∷ yo ∷ []) 1 ((omega arith, tt), ((omega arith, tt), tt)) (omega arith)

write_fortune-Holds_example :
    (s' : Fortune) × (write_fortune 0 (codes "hi") fresh ≡ some (pos 2, s'))
    × Holds s' [] (codes "h\n" ∷ [])
write_fortune-Holds_example =
    write_fortune-Holds fresh [] [] fresh-Holds (codes "h") b'i' (omega arith, tt) (omega arith)

write_fortune-overflow_example : write_fortune 0 (replicate 4096 b'a') fresh ≡ none
write_fortune-overflow_example =
    write_fortune-overflow fresh [] [] fresh-Holds (replicate 4096 b'a')
      (omega (arith, length-replicate {A = ℕ} 4096 b'a'))
      (omega (arith, length-replicate {A = ℕ} 4096 b'a'))
      (omega (arith, length-replicate {A = ℕ} 4096 b'a'))

-- A reader that comes between two writes.
abbrev mixed : List Event
mixed = writes hi ∷ reads ∷ writes yo ∷ reads ∷ []

run-queue_example :
    (run_seq some mixed seq_fresh ≡ some (codes "h\n" ∷ codes "y\n" ∷ []))
    × (run_cookie mixed fresh ≡ some (codes "h\n\n" ∷ codes "y\n\n" ∷ []))
run-queue_example =
    run-queue some (λ text h. refl) mixed
      ((omega arith, tt), (omega arith, tt), ((omega arith, tt), (omega arith, tt), tt))
      (omega arith)
