-- ===== src/Select/Session/Tests.antt =====
-- A client of lab_08/part2 that types 7 and 12.
use os6_bmstu_iu.Common.{
  ℕ, ◌+◌, ◌≡◌, refl, true, some, List, [], ◌∷◌, ◌++◌, pos, codes, length, ◌==◌, arith, c_string,
  print, print_in,
}
use os6_bmstu_iu.Select.{Answers, squared}
use os6_bmstu_iu.Select.Run.{Opening, main}
use os6_bmstu_iu.Select.Client.{asks, Turn}
use os6_bmstu_iu.Select.Client
use os6_bmstu_iu.Select.Session.{Hears, Types, one_client, main-squares}

abbrev opening : Opening
opening = record { socket = pos 3; bind = pos 0; listen = pos 0 }

-- Something happens on one descriptor; what is received has a byte behind the zero.
abbrev on : ℕ → List ℕ → Answers
on fd text = record {
  rc = pos 1;
  changed = λ x. x == fd;
  newsock = pos 4;
  recv = λ x. record { rv = pos (length text + 1); buf = text ++ (0 ∷ b'x' ∷ []) };
  send = λ x. pos 1;
}

abbrev turn : List ℕ → Turn
turn word = record { word = word; sends = true; buf_server = codes "PID" ++ (0 ∷ []) }

heard : Hears 4 (print 7) (on 4 (codes "7"))
unfolding print print_in
heard = record {
  selected = refl;
  changed = λ x. refl;
  not_closed = refl;
  rest = b'x' ∷ [];
  buf = refl;
  answered = refl;
}

heard_next : Hears 4 (print 12) (on 4 (codes "12"))
unfolding print print_in
heard_next = record {
  selected = refl;
  changed = λ x. refl;
  not_closed = refl;
  rest = b'x' ∷ [];
  buf = refl;
  answered = refl;
}

typed : Types 7 (codes "PID") (turn (codes "7"))
unfolding print print_in c_string
typed = record { word = refl; sends = refl; got = refl }

typed_next : Types 12 (codes "PID") (turn (codes "12"))
unfolding print print_in c_string
typed_next = record { word = refl; sends = refl; got = refl }

main-squares_example :
    (main opening (on 3 [] ∷ on 4 (codes "7") ∷ on 4 (codes "12") ∷ [])
      ≡ some (one_client 4, (0, squared 49) ∷ (0, squared 144) ∷ []))
    × (Client.main true true (turn (codes "7") ∷ turn (codes "12") ∷ [])
        ≡ asks
            ((print 12 ++ (0 ∷ [])) ∷ (print 7 ++ (0 ∷ [])) ∷ [])
            (codes "PID" ∷ codes "PID" ∷ []))
main-squares_example =
    main-squares 3 4 (omega arith) (λ e. omega arith) opening (on 3 [])
      (on 4 (codes "7") ∷ on 4 (codes "12") ∷ []) (turn (codes "7") ∷ turn (codes "12") ∷ [])
      (codes "PID") (7 ∷ 12 ∷ []) refl refl refl
      (record { selected = refl; changed = λ x. refl; newsock = refl })
      (omega arith, omega arith, (omega arith, omega arith, tt)) (heard, (heard_next, tt))
      (typed, (typed_next, tt))
