-- ===== src/Local.antt =====
-- lab_08/part1/server.c: a server on a local socket, which answers each client and prints its message.
pub mod Client
pub mod Exchange
pub mod Restart
mod Tests
use os6_bmstu_iu.Common.{
  ℕ, zero, suc, ◌+◌, ◌≡◌, Bool, true, false, not, ◌||◌, Option, none, some, List, [], ◌∷◌, ◌++◌, ℤ,
  codes, is_negative, length, take, drop, if◌then◌else◌, c_string, print,
}

-- `MAX_MSG_LEN`
abbrev pub max_msg_len : ℕ
max_msg_len = 128

-- `return -1` of `main`
abbrev pub failure : ℕ
failure = 255

-- The server in its loop: whether the name of its socket is in the file system, the connections that
-- it has accepted and not closed, its buffer, what it has sent to the clients, and what it has printed.
pub record Server : Type 0 where
  pub name_exists : Bool
  pub connections : ℕ
  pub buf : List ℕ
  pub sent : List (List ℕ)
  pub printed : List (List ℕ)

-- The server goes on, it has ended with a status, where the name is left or not, or it has read
-- behind its buffer.
pub data State : Type 0 where
  running : Server → State
  ended : (status : ℕ) → (name_left : Bool) → State
  crashed : State

-- What happens while the server waits: a client, for which `accept` gives a value, `recv` some bytes
-- or an error, and `send` a value; or a SIGINT.
pub data Event : Type 0 where
  client : (newsock : ℤ) → (arrives : Option (List ℕ)) → (answered : ℤ) → Event
  sigint : Event

-- `cleanup` closes the socket and removes its name; the end of the process closes the rest.
abbrev pub cleanup : Server → Server
cleanup s = record s { name_exists = false }

-- `sighandler`
unfoldable pub sighandler : Server → State
sighandler s = ended 0 ((cleanup s).name_exists)

-- `recv(newsock, buf, sizeof(buf), 0)`: what does not fit is not read, and an error reads nothing.
unfoldable pub recv : Option (List ℕ) → List ℕ → List ℕ
recv none buf = buf
recv (some arrives) buf = let part = take (length buf) arrives in part ++ drop (length part) buf

-- `bufSend`
unfoldable pub buf_send : (pid : ℕ) → List ℕ
buf_send pid = 10 ∷ (codes "Server Answer - PID: " ++ (print pid ++ (10 ∷ [])))

-- One round of the loop in `main`; the strings end with a zero.
unfoldable pub round : (pid : ℕ) → Event → Server → State
round pid sigint s = sighandler s
round pid (client newsock arrives answered) s =
    if is_negative newsock
    then ended failure s.name_exists
    else let buf = recv arrives s.buf in
      if is_negative answered then ended failure s.name_exists else elim (c_string buf) [
        | none ↦ crashed
        | some text ↦ running (record s {
          connections = s.connections + 1;
          buf = buf;
          sent = (buf_send pid ++ (0 ∷ [])) ∷ s.sent;
          printed = text ∷ s.printed;
        })
      ]

-- The loop, over what happens.
unfoldable pub loop : (pid : ℕ) → List Event → State → State
loop pid [] s = s
loop pid (e ∷ es) (running s) = loop pid es (round pid e s)
loop pid (e ∷ es) ended_or_crashed = ended_or_crashed

-- What the calls before the loop answer.
pub record Answers : Type 0 where
  pub socket : Bool
  pub bind : Bool
  pub signal : Bool
  pub listen : Bool

-- `main` up to the loop: `bind` makes the name, and fails if it is there.
unfoldable pub start : Answers → (name_exists : Bool) → (memory : List ℕ) → State
start a name_exists memory =
    let s : Server = record {
      name_exists = true;
      connections = 0;
      buf = memory;
      sent = [];
      printed = [];
    } in
    if not a.socket
    then ended failure name_exists
    else if name_exists || not a.bind
    then ended failure name_exists
    else if not a.signal
    then ended failure ((cleanup s).name_exists)
    else if not a.listen
    then ended failure true
    else running s

-- `main`
unfoldable pub main : (pid : ℕ) → Answers → Bool → (memory : List ℕ) → List Event → State
main pid a name_exists memory es = loop pid es (start a name_exists memory)
