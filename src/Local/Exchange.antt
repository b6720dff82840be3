-- ===== src/Local/Exchange.antt =====
-- lab_08/part1: what the client has sent is what the server prints.
use os6_bmstu_iu.Common.{
  some-eq, ℕ, suc, ◌+◌, ◌<◌, ◌≡◌, refl, ap, ◌∙◌, subst, Bool, true, false, Option, none, some, List,
  [], ◌∷◌, ◌++◌, append_assoc, arith, pos, length, length-append, length-drop, length-take, take,
  take-le, drop, ltb, ltb→lt, if◌then◌else◌, c_string, c_string-append, NonZero, codes, print,
  spell, spell-print,
}
use os6_bmstu_iu.Local.{max_msg_len, Server, running, Event, client, recv, buf_send, round, loop}
use os6_bmstu_iu.Local.Client.{create_message, message}

-- One client: its message, and the values of `accept` and `send` for it.
pub record Exchange : Type 0 where
  pub client_pid : ℕ
  pub ctime : List ℕ
  pub argument : Option (List ℕ)
  pub text : List ℕ
  pub newsock : ℕ
  pub answered : ℕ

-- The text is what the client made, and it is a string.
pub record IsSent (e : Exchange) : Type 0 where
  pub created : create_message e.client_pid e.ctime e.argument ≡ some e.text
  pub string : NonZero e.text

abbrev pub AreSent : List Exchange → Type 0
AreSent [] = Unit {0}
AreSent (e ∷ es) = IsSent e × AreSent es

-- What the server meets: the whole message with its zero.
abbrev pub events : List Exchange → List Event
events [] = []
events (e ∷ es) = client (pos e.newsock) (some (e.text ++ (0 ∷ []))) (pos e.answered) ∷ events es

-- The texts, the last in front.
abbrev pub texts_onto : List Exchange → List (List ℕ) → List (List ℕ)
texts_onto [] printed = printed
texts_onto (e ∷ es) printed = texts_onto es (e.text ∷ printed)

create_message-some :
    (pid : ℕ) (ctime : List ℕ) (argument : Option (List ℕ)) (text : List ℕ)
    → create_message pid ctime argument ≡ some text
    → length text < max_msg_len
unfolding create_message
create_message-some pid ctime argument text e =
    by_length (ltb (length (message pid ctime argument)) max_msg_len) refl e
  where
    by_length :
        (b : Bool)
        → ltb (length (message pid ctime argument)) max_msg_len ≡ b
        → (if b then some (message pid ctime argument) else none) ≡ some text
        → length text < max_msg_len
    by_length true short e = subst (λ u. length u < max_msg_len) (some-eq e) (ltb→lt _ _ short)
    by_length false long e = cc

-- A message with its zero that fits is at the front of the buffer.
recv-fits :
    (text buf : List ℕ)
    → length text < length buf
    → recv (some (text ++ (0 ∷ []))) buf ≡ text ++ (0 ∷ drop (suc (length text)) buf)
unfolding recv
recv-fits text buf lt =
    let size : length (text ++ (0 ∷ [])) ≡ suc (length text) =
      omega (arith, length-append text (0 ∷ [])) in
    let whole : take (length buf) (text ++ (0 ∷ [])) ≡ text ++ (0 ∷ []) =
      take-le (text ++ (0 ∷ [])) (length buf) (omega (arith, size)) in
    rw (whole, size) (append_assoc text (0 ∷ []) (drop (suc (length text)) buf))

length-recv : (arrives : Option (List ℕ)) (buf : List ℕ) → length (recv arrives buf) ≡ length buf
unfolding recv
length-recv none buf = refl
length-recv (some arrives) buf = omega (
  arith,
  length-append (take (length buf) arrives) (drop (length (take (length buf) arrives)) buf),
  length-take (length buf) arrives,
  length-drop (length (take (length buf) arrives)) buf,
)

-- The server after one exchange.
abbrev after : (pid : ℕ) → Exchange → Server → Server
after pid e s = record s {
  connections = s.connections + 1;
  buf = recv (some (e.text ++ (0 ∷ []))) s.buf;
  sent = (buf_send pid ++ (0 ∷ [])) ∷ s.sent;
  printed = e.text ∷ s.printed;
}

round-client :
    (pid : ℕ) (e : Exchange) (s : Server)
    → IsSent e
    → length s.buf ≡ max_msg_len
    → round pid (client (pos e.newsock) (some (e.text ++ (0 ∷ []))) (pos e.answered)) s
      ≡ running (after pid e s)
unfolding round
round-client pid e s h size =
    let short : length e.text < max_msg_len =
      create_message-some e.client_pid e.ctime e.argument e.text h.created in
    let read = recv-fits e.text s.buf (omega (arith, short, size)) in
    let string : c_string (recv (some (e.text ++ (0 ∷ []))) s.buf) ≡ some e.text =
      ap c_string read ∙ c_string-append e.text (drop (suc (length e.text)) s.buf) h.string in
    rw string refl

-- The same answer to each of the clients, the last in front.
abbrev pub answers_onto : List ℕ → List Exchange → List (List ℕ) → List (List ℕ)
answers_onto answer [] sent = sent
answers_onto answer (e ∷ es) sent = answers_onto answer es (answer ∷ sent)

-- What the clients get from a server: the digits of its pid in a text between two line ends.
pub record Answers (pid : ℕ) (es : List Exchange) (before after : List (List ℕ)) : Type 0 where
  pub digits : List ℕ
  pub spells_pid : spell 0 digits ≡ pid
  pub sent :
      after
      ≡ answers_onto
          (b'\n' ∷ (codes "Server Answer - PID: " ++ (digits ++ (b'\n' ∷ 0 ∷ []))))
          es
          before

loop-sent :
    (pid : ℕ) (es : List Exchange) (s : Server)
    → AreSent es
    → length s.buf ≡ max_msg_len
    → (s' : Server) × (loop pid (events es) (running s) ≡ running s')
      × (s'.printed ≡ texts_onto es s.printed)
      × (s'.connections ≡ s.connections + length es)
      × (s'.sent ≡ answers_onto (buf_send pid ++ (0 ∷ [])) es s.sent)
unfolding loop
loop-sent pid [] s h size = (s, refl, refl, omega arith, refl)
loop-sent pid (e ∷ es) s h size =
    let (s', runs, printed, connections, sent) =
      loop-sent pid es (after pid e s) (h.1)
        (length-recv (some (e.text ++ (0 ∷ []))) s.buf ∙ size) in
    (
      s',
      ap (loop pid (events es)) (round-client pid e s (h.0) size) ∙ runs,
      printed,
      omega (arith, connections),
      sent,
    )

buf_send-digits :
    (pid : ℕ)
    → buf_send pid ++ (0 ∷ [])
      ≡ b'\n' ∷ (codes "Server Answer - PID: " ++ (print pid ++ (b'\n' ∷ 0 ∷ [])))
unfolding buf_send
buf_send-digits pid =
    ap (λ l. b'\n' ∷ (codes "Server Answer - PID: " ++ l))
      (append_assoc (print pid) (10 ∷ []) (0 ∷ []))

-- If every accept and send succeeds, and every recv gives a message that a client made and could send,
-- whole and with its zero, the server prints the message of each client as the client made it, in the
-- order of the clients, and goes on; each client is sent the digits of the server's pid behind
-- "Server Answer - PID: ", between two line ends and with a zero; none of the connections is closed.
pub loop-printed :
    (pid : ℕ) (es : List Exchange) (s : Server)
    → AreSent es
    → length s.buf ≡ max_msg_len
    → (s' : Server) × (loop pid (events es) (running s) ≡ running s')
      × (s'.printed ≡ texts_onto es s.printed)
      × (s'.connections ≡ s.connections + length es)
      × Answers pid es s.sent s'.sent
loop-printed pid es s h size =
    let (s', runs, printed, connections, sent) = loop-sent pid es s h size in
    (
      s',
      runs,
      printed,
      connections,
      record {
        digits = print pid;
        spells_pid = spell-print pid;
        sent = sent ∙ ap (λ a. answers_onto a es s.sent) (buf_send-digits pid);
      },
    )
