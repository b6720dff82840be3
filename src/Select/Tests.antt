-- ===== src/Select/Tests.antt =====
-- The theorems on lab_08/part2/server.c for a few clients.
use os6_bmstu_iu.Common.{◌≡◌, refl, true, some, [], ◌∷◌, pos, codes, replicate, ◌==◌, if◌then◌else◌}
use os6_bmstu_iu.Select.{Server, Answers, squared, place, serve, watch, welcome, round}
use os6_bmstu_iu.Select.Run.{Opening, rounds, main}
use os6_bmstu_iu.Select.Run.Held.{IsHeld, main-IsHeld}

-- Clients on the descriptors 4 and 5; 4 sends "12", 5 goes, and a client comes on 6.
abbrev two_clients : Server
two_clients = record { arr_sock = 4 ∷ 5 ∷ replicate 8 0; open_socks = 5 ∷ 4 ∷ [] }

abbrev busy : Answers
busy = record {
  rc = pos 3;
  changed = λ fd. true;
  newsock = pos 6;
  recv = λ fd.
      if fd == 4
      then record { rv = pos 3; buf = codes "12\0" }
      else record { rv = pos 0; buf = [] };
  send = λ fd. pos 30;
}

-- What that round does.
round_result :
    round busy 3 two_clients
    ≡ some (
      record { arr_sock = 4 ∷ 0 ∷ 6 ∷ replicate 7 0; open_socks = 6 ∷ 4 ∷ [] },
      (0, squared 144) ∷ [],
    )
unfolding round watch welcome place serve
round_result = refl

abbrev full : Server
full = record {
  arr_sock = 4 ∷ 5 ∷ 6 ∷ 7 ∷ 8 ∷ 9 ∷ 10 ∷ 11 ∷ 12 ∷ 13 ∷ [];
  open_socks = 4 ∷ 5 ∷ 6 ∷ 7 ∷ 8 ∷ 9 ∷ 10 ∷ 11 ∷ 12 ∷ 13 ∷ [];
}

abbrev opening : Opening
opening = record { socket = pos 3; bind = pos 0; listen = pos 0 }

-- One client that comes, and then sends "12".
abbrev speaks : Answers
speaks = record busy { newsock = pos 4 }

abbrev only_client : Answers
only_client = record speaks { changed = λ fd. fd == 4 }

abbrev one_client : Server
one_client = record { arr_sock = 4 ∷ replicate 9 0; open_socks = 4 ∷ [] }

speaks_result : main opening (speaks ∷ only_client ∷ []) ≡ some (one_client, (0, squared 144) ∷ [])
unfolding main rounds round watch welcome place serve
speaks_result = refl

main-IsHeld_example : IsHeld one_client
main-IsHeld_example =
    main-IsHeld opening (speaks ∷ only_client ∷ []) (one_client, (0, squared 144) ∷ [])
      speaks_result
