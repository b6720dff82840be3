-- ===== src/Local/Tests.antt =====
-- lab_08/part1: two clients, and a server that is started twice.
use os6_bmstu_iu.Common.{
  ℕ, ◌+◌, ◌≡◌, refl, true, false, none, some, List, [], ◌∷◌, ◌++◌, codes, pos, negsuc, replicate,
  length-replicate, NonZero-all, print,
}
use os6_bmstu_iu.Local.{
  max_msg_len, Server, running, ended, failure, client, round, start, loop, main,
}
use os6_bmstu_iu.Local
use os6_bmstu_iu.Local.Client.{create_message, message, lf}
use os6_bmstu_iu.Local.Exchange.{Exchange, IsSent, events, texts_onto, Answers, loop-printed}
use os6_bmstu_iu.Local.Restart.{main-again}

abbrev memory : List ℕ
memory = replicate max_msg_len 7

abbrev begins : Server
begins = record { name_exists = true; connections = 0; buf = memory; sent = []; printed = [] }

abbrev said : Exchange
said = record {
  client_pid = 9;
  ctime = codes "Mon" ++ (lf ∷ []);
  argument = some (codes "hi");
  text = lf ∷ (codes "PID: 9" ++ (lf ∷ (codes "Time: Mon" ++ (lf ∷ codes " Message: hi"))));
  newsock = 4;
  answered = 30;
}

said-IsSent : IsSent said
unfolding create_message message print
said-IsSent = record { created = refl; string = NonZero-all said.text refl }

loop-printed_example :
    (s' : Server) × (loop 5 (events (said ∷ said ∷ [])) (running begins) ≡ running s')
    × (s'.printed ≡ texts_onto (said ∷ said ∷ []) [])
    × (s'.connections ≡ 0 + 2)
    × Answers 5 (said ∷ said ∷ []) [] s'.sent
loop-printed_example =
    loop-printed 5 (said ∷ said ∷ []) begins (said-IsSent, (said-IsSent, tt))
      (length-replicate {A = ℕ} max_msg_len 7)

abbrev all_answered : Local.Answers
all_answered = record { socket = true; bind = true; signal = true; listen = true }

-- The first `accept` fails.
fails : main 5 all_answered false memory (client (negsuc 0) none (pos 0) ∷ []) ≡ ended failure true
unfolding main start loop round
fails = refl

main-again_example : main 6 all_answered true memory [] ≡ ended failure true
main-again_example =
    main-again 5 6 all_answered all_answered memory memory (client (negsuc 0) none (pos 0) ∷ []) []
      true refl refl refl fails
