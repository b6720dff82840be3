-- ===== src/Select.antt =====
-- lab_08/part2/server.c: a server that waits with `select` for new clients and for their messages.
pub mod Slots
pub mod Served
pub mod Round
pub mod Run
pub mod Client
pub mod Session
mod Tests
use os6_bmstu_iu.Common.{
  ℕ, zero, suc, ◌+◌, ◌*◌, ◌-◌, ◌^◌, ◌≡◌, Bool, true, false, not, ◌&&◌, ◌||◌, Option, none, some,
  List, [], ◌∷◌, ◌++◌, ℤ, pos, negsuc, is_negative, ltb, leb, ◌==◌, if◌then◌else◌, replicate, ◌>>=◌,
}

-- `arr_sock`, and the connections that `accept` has opened and nothing has closed.
pub record Server : Type 0 where
  pub arr_sock : List ℕ
  pub open_socks : List ℕ

-- `MAX_COUNT_SOCK`
abbrev pub max_count_sock : ℕ
max_count_sock = 10

abbrev pub no_clients : Server
no_clients = record { arr_sock = replicate max_count_sock 0; open_socks = [] }

-- What `recv` returns, and the buffer after it.
pub record Received : Type 0 where
  pub rv : ℤ
  pub buf : List ℕ

-- How the kernel answers in one round: the value of `select` and the descriptors on which
-- something has happened, the value of `accept`, and what `recv` and `send` do on a descriptor.
pub record Answers : Type 0 where
  pub rc : ℤ
  pub changed : ℕ → Bool
  pub newsock : ℤ
  pub recv : ℕ → Received
  pub send : ℕ → ℤ

-- `set` and `max_sock` before the `select`.
unfoldable pub watch : List ℕ → List ℕ → ℕ → List ℕ × ℕ
watch [] set max_sock = (set, max_sock)
watch (v ∷ vs) set max_sock =
    if ltb 0 v
    then watch vs (v ∷ set) (if ltb max_sock v then v else max_sock)
    else watch vs set max_sock

abbrev pub is_in : ℕ → List ℕ → Bool
is_in fd [] = false
is_in fd (v ∷ vs) = fd == v || is_in fd vs

-- `FD_ISSET` after the `select`, which leaves in the set what has changed.
abbrev pub is_set : Answers → List ℕ → ℕ → Bool
is_set a set fd = is_in fd set && a.changed fd

-- The loop that gives a new client the first free place; the result also holds `flag`.
unfoldable pub place : ℕ → List ℕ → List ℕ × Bool
place newsock [] = ([], true)
place newsock (v ∷ vs) =
    let (rest, flag) = place newsock vs in
    if v == 0 then (newsock ∷ vs, false) else (v ∷ rest, flag)

-- `atoi`: spaces, a sign and digits.
abbrev pub is_space : ℕ → Bool
is_space c = c == 32 || (leb 9 c && leb c 13)

abbrev pub digits : ℕ → List ℕ → ℕ
digits n [] = n
digits n (c ∷ cs) = if leb b'0' c && leb c b'9' then digits (10 * n + (c - b'0')) cs else n

abbrev pub atoi : List ℕ → ℕ
atoi [] = 0
atoi (c ∷ cs) =
    if is_space c
    then atoi cs
    else if c == b'-' || c == b'+'
    then digits 0 cs
    else digits 0 (c ∷ cs)

-- What is printed for a message. The sign of the number does not matter to its square; a square
-- outside of `int` is undefined in C.
pub data Answer : Type 0 where
  squared : ℕ → Answer
  overflowed : Answer
  not_a_number : Answer

abbrev pub answer : List ℕ → Answer
answer buf =
    let number = atoi buf in
    if number == 0
    then not_a_number
    else if ltb (number * number) (2 ^ 31)
    then squared (number * number)
    else overflowed

abbrev pub is_zero : ℤ → Bool
is_zero (pos zero) = true
is_zero _ = false

-- `close`
abbrev pub without : ℕ → List ℕ → List ℕ
without fd [] = []
without fd (v ∷ vs) = if fd == v then vs else v ∷ without fd vs

-- The places, the open connections and what was printed for which client, after the loop over the
-- clients.
abbrev pub Served : Type 0
Served = List ℕ × List ℕ × List (ℕ × Answer)

-- The loop over the clients from number `i` on; `none` ends the program.
unfoldable pub serve :
    (a : Answers) → (set : List ℕ) → (i : ℕ) → List ℕ → (open_socks : List ℕ) → Option Served
serve a set i [] open_socks = some ([], open_socks, [])
serve a set i (v ∷ vs) open_socks =
    let skipped = serve a set (i + 1) vs open_socks in
    let closed = serve a set (i + 1) vs (without v open_socks) in
    if not (v == 0) && is_set a set v
    then (if is_zero (a.recv v).rv
        then (closed >>= λ r. some (0 ∷ r.0, r.1, r.2))
        else if is_negative (a.send v)
        then none
        else (skipped >>= λ r. some (v ∷ r.0, r.1, (i, answer ((a.recv v).buf)) ∷ r.2)))
    else (skipped >>= λ r. some (v ∷ r.0, r.1, r.2))

-- The places and connections after the test for a new client; `none` ends the program.
unfoldable pub welcome : Answers → (sock : ℕ) → (set : List ℕ) → Server → Option Server
unfolding place
welcome a sock set s =
    if is_set a set sock
    then elim a.newsock [
      | negsuc e ↦ none
      | pos newsock ↦
          some (record {
            arr_sock = (place newsock s.arr_sock).0;
            open_socks = newsock ∷ s.open_socks;
          })
    ]
    else some s

-- One round of `while (TRUE)`; `none` is a `return -1`.
unfoldable pub round : Answers → (sock : ℕ) → Server → Option (Server × List (ℕ × Answer))
round a sock s =
    let (set, max_sock) = watch s.arr_sock (sock ∷ []) sock in
    if is_negative a.rc then none else do
      s1 ← welcome a sock set s
      r ← serve a set 0 s1.arr_sock s1.open_socks
      some (record { arr_sock = r.0; open_socks = r.1 }, r.2)
