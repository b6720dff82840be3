-- ===== src/Local/Restart.antt =====
-- lab_08/part1/server.c: the name of the socket, which an end of the server removes or leaves.
use os6_bmstu_iu.Common.{
  ℕ, ◌+◌, subst, ◌++◌, ◌≡◌, refl, Bool, true, false, not, Option, none, some, List, [], ◌∷◌, pos,
  negsuc, ◌==◌, if◌then◌else◌, c_string,
}
use os6_bmstu_iu.Local.{
  Server, State, running, ended, crashed, Event, client, sigint, sighandler, recv, buf_send,
  failure, round, loop, Answers, start, main,
}

-- What holds of the server after any steps: the name is there while it runs, and is left behind
-- exactly if it has ended with a failure.
unfoldable pub IsNamed : State → Type 0
IsNamed (running s) = s.name_exists ≡ true
IsNamed (ended status name_left) = name_left ≡ not (status == 0)
IsNamed crashed = Unit {0}

round-IsNamed : (pid : ℕ) (e : Event) (s : Server) → s.name_exists ≡ true → IsNamed (round pid e s)
unfolding round IsNamed sighandler
round-IsNamed pid sigint s named = refl
round-IsNamed pid (client (negsuc n) arrives answered) s named = named
round-IsNamed pid (client (pos n) arrives (negsuc k)) s named = named
round-IsNamed pid (client (pos n) arrives (pos k)) s named =
    by_string (c_string (recv arrives s.buf))
  where
    by_string :
        (r : Option (List ℕ))
        → IsNamed (elim r [
          | none ↦ crashed
          | some text ↦ running (record s {
            connections = s.connections + 1;
            buf = recv arrives s.buf;
            sent = (buf_send pid ++ (0 ∷ [])) ∷ s.sent;
            printed = text ∷ s.printed;
          })
        ])
    by_string none = tt
    by_string (some text) = named

loop-IsNamed : (pid : ℕ) (es : List Event) (s : State) → IsNamed s → IsNamed (loop pid es s)
unfolding loop IsNamed
loop-IsNamed pid [] s h = h
loop-IsNamed pid (e ∷ es) (running s) h =
    loop-IsNamed pid es (round pid e s) (round-IsNamed pid e s h)
loop-IsNamed pid (e ∷ es) (ended status name_left) h = h
loop-IsNamed pid (e ∷ es) crashed h = h

start-IsNamed :
    (a : Answers) (memory : List ℕ)
    → a.socket ≡ true
    → a.bind ≡ true
    → a.signal ≡ true
    → IsNamed (start a false memory)
unfolding IsNamed start
start-IsNamed a memory socket bind signal = rw (socket, bind, signal) (by_listen a.listen)
  where
    by_listen :
        (b : Bool)
        → IsNamed (
            if not b
            then ended failure true
            else running (record {
              name_exists = true;
              connections = 0;
              buf = memory;
              sent = [];
              printed = [];
            }))
    by_listen true = refl
    by_listen false = refl

-- Once `bind` and `signal` have been answered, the server ends with 0 and without the name, or with
-- a failure and leaves the name behind, whatever its clients and `listen` do.
pub main-ended :
    (pid : ℕ) (a : Answers) (memory : List ℕ) (es : List Event) (status : ℕ) (name_left : Bool)
    → a.socket ≡ true
    → a.bind ≡ true
    → a.signal ≡ true
    → main pid a false memory es ≡ ended status name_left
    → name_left ≡ not (status == 0)
unfolding main IsNamed
main-ended pid a memory es status name_left socket bind signal e =
    subst IsNamed e
      (loop-IsNamed pid es (start a false memory) (start-IsNamed a memory socket bind signal))

loop-ended :
    (pid : ℕ) (es : List Event) (status : ℕ) (name_left : Bool)
    → loop pid es (ended status name_left) ≡ ended status name_left
unfolding loop
loop-ended pid [] status name_left = refl
loop-ended pid (e ∷ es) status name_left = refl

-- After a server that was answered by socket, bind and signal and has ended with a failure no other
-- one starts: the name is left behind, so bind fails, and the name stays.
pub main-again :
    (pid pid' : ℕ) (a a' : Answers) (memory memory' : List ℕ) (es es' : List Event)
    (name_left : Bool)
    → a.socket ≡ true
    → a.bind ≡ true
    → a.signal ≡ true
    → main pid a false memory es ≡ ended failure name_left
    → main pid' a' name_left memory' es' ≡ ended failure true
unfolding main start
main-again pid pid' a a' memory memory' es es' name_left socket bind signal e =
    rw (main-ended pid a memory es failure name_left socket bind signal e) (by_socket a'.socket)
  where
    by_socket :
        (b : Bool)
        → loop pid' es' (if not b then ended failure true else ended failure true)
          ≡ ended failure true
    by_socket true = loop-ended pid' es' failure true
    by_socket false = loop-ended pid' es' failure true
