-- ===== src/Select/Run/Held.antt =====
-- lab_08/part2/server.c: the server uses only descriptors that are open.
use os6_bmstu_iu.Common.{
  some-eq, ℕ, ◌+◌, ◌≤◌, ◌≡◌, ◌≢◌, subst, Bool, true, false, not, ◌&&◌, none, some, List, [], ◌∷◌,
  ◌>>=◌, >>=-eq-some, ℤ, pos, negsuc, is_negative, if◌then◌else◌, ◌==◌, ==_ne, times, arith,
}
use os6_bmstu_iu.Select.{
  Server, Answers, Answer, answer, no_clients, watch, place, is_set, is_zero, without, welcome,
  Served, serve, round,
}
use os6_bmstu_iu.Select.Run.{Opening, rounds, main}

-- A place never stands for more connections than are open.
pub record IsHeld (s : Server) : Type 0 where
  pub held : (fd : ℕ) → fd ≢ 0 → times fd s.arr_sock ≤ times fd s.open_socks

times-place :
    (newsock fd : ℕ) (vs : List ℕ)
    → fd ≢ 0
    → times fd (place newsock vs).0 ≤ times fd (newsock ∷ vs)
unfolding place
times-place newsock fd [] used = omega arith
times-place newsock fd (v ∷ vs) used = ground (arith, times-place newsock fd vs used)

times-without : (v fd : ℕ) (socks : List ℕ) → times fd socks ≤ times fd (v ∷ without v socks)
times-without v fd [] = omega arith
times-without v fd (x ∷ socks) = ground (arith, times-without v fd socks)

welcome-IsHeld :
    (a : Answers) (sock : ℕ) (set : List ℕ) (s s' : Server)
    → IsHeld s
    → welcome a sock set s ≡ some s'
    → IsHeld s'
unfolding welcome
welcome-IsHeld a sock set s s' h e = by_answer (is_set a set sock) a.newsock e
  where
    by_answer :
        (b : Bool) (z : ℤ)
        → (if b
            then elim z [
              | negsuc e ↦ none
              | pos newsock ↦ some (record {
                arr_sock = (place newsock s.arr_sock).0;
                open_socks = newsock ∷ s.open_socks;
              })
            ]
            else some s)
          ≡ some s'
        → IsHeld s'
    by_answer false z e = subst IsHeld (some-eq e) h
    by_answer true (negsuc n) e = cc
    by_answer true (pos newsock) e = subst IsHeld (some-eq e) (record {
      held = λ fd used. ground (arith, times-place newsock fd s.arr_sock used, h.held fd used);
    })

-- What stays true of the rest of the places, whatever is held besides them.
unfoldable Keeps : Answers → List ℕ → ℕ → ℕ → List ℕ → Type 0
Keeps a set fd i vs =
    (m : ℕ) (socks : List ℕ) (r : Served)
    → times fd vs + m ≤ times fd socks
    → serve a set i vs socks ≡ some r
    → times fd (r.0) + m ≤ times fd (r.1)

-- One client.
serve-one :
    (a : Answers) (set : List ℕ) (fd i v : ℕ) (vs : List ℕ)
    → fd ≢ 0
    → Keeps a set fd (i + 1) vs
    → Keeps a set fd i (v ∷ vs)
unfolding Keeps serve
serve-one a set fd i v vs used again m socks r le e =
    by_answer (not (v == 0) && is_set a set v) (is_zero (a.recv v).rv) (is_negative (a.send v)) e
  where
    -- The place stays.
    kept :
        (log : Served → List (ℕ × Answer))
        → (serve a set (i + 1) vs socks >>= λ q. some (v ∷ q.0, q.1, log q)) ≡ some r
        → times fd (r.0) + m ≤ times fd (r.1)
    kept log e =
        let (q, served, same) = >>=-eq-some (serve a set (i + 1) vs socks) _ e in
        let rest = again (m + times fd (v ∷ [])) socks q (ground arith) served in
        subst (λ r. times fd (r.0) + m ≤ times fd (r.1)) (some-eq same) (ground (arith, rest))

    by_answer :
        (b gone fails : Bool)
        → (if b
            then (if gone
                then (serve a set (i + 1) vs (without v socks) >>= λ r. some (0 ∷ r.0, r.1, r.2))
                else if fails
                then none
                else (serve a set (i + 1) vs socks >>= λ r.
                    some (v ∷ r.0, r.1, (i, answer ((a.recv v).buf)) ∷ r.2)))
            else (serve a set (i + 1) vs socks >>= λ r. some (v ∷ r.0, r.1, r.2)))
          ≡ some r
        → times fd (r.0) + m ≤ times fd (r.1)
    by_answer false gone fails e = kept (λ q. q.2) e
    by_answer true false true e = cc
    by_answer true false false e = kept (λ q. (i, answer ((a.recv v).buf)) ∷ q.2) e
    by_answer true true fails e =
        let (q, served, same) = >>=-eq-some (serve a set (i + 1) vs (without v socks)) _ e in
        let rest = again m (without v socks) q (ground (arith, times-without v fd socks)) served in
        subst (λ r. times fd (r.0) + m ≤ times fd (r.1)) (some-eq same)
          (ground (arith, rest, ==_ne fd 0 used))

serve-Keeps : (a : Answers) (set : List ℕ) (fd i : ℕ) (vs : List ℕ) → fd ≢ 0 → Keeps a set fd i vs
unfolding Keeps serve
serve-Keeps a set fd i [] used =
    λ m socks r le e. subst (λ r. times fd (r.0) + m ≤ times fd (r.1)) (some-eq e) le
serve-Keeps a set fd i (v ∷ vs) used =
    serve-one a set fd i v vs used (serve-Keeps a set fd (i + 1) vs used)

serve-IsHeld :
    (a : Answers) (set : List ℕ) (s : Server) (r : Served)
    → IsHeld s
    → serve a set 0 s.arr_sock s.open_socks ≡ some r
    → IsHeld (record { arr_sock = r.0; open_socks = r.1 })
unfolding Keeps
serve-IsHeld a set s r h e = record {
  held = λ fd used. omega (
    arith,
    serve-Keeps a set fd 0 s.arr_sock used 0 s.open_socks r (omega (arith, h.held fd used)) e,
  );
}

round-IsHeld :
    (a : Answers) (sock : ℕ) (s : Server) (r : Server × List (ℕ × Answer))
    → IsHeld s
    → round a sock s ≡ some r
    → IsHeld (r.0)
unfolding round
round-IsHeld a sock s r h e = by_select (is_negative a.rc) e
  where
    set : List ℕ
    set = (watch s.arr_sock (sock ∷ []) sock).0

    by_select :
        (b : Bool)
        → (if b
            then none
            else (welcome a sock set s >>= λ s1. serve a set 0 s1.arr_sock s1.open_socks >>= λ q.
                some (record { arr_sock = q.0; open_socks = q.1 }, q.2)))
          ≡ some r
        → IsHeld (r.0)
    by_select true e = cc
    by_select false e =
        let (s1, welcomed, e1) = >>=-eq-some (welcome a sock set s) _ e in
        let (q, served, same) = >>=-eq-some (serve a set 0 s1.arr_sock s1.open_socks) _ e1 in
        subst (λ r. IsHeld (r.0)) (some-eq same)
          (serve-IsHeld a set s1 q (welcome-IsHeld a sock set s s1 h welcomed) served)

rounds-IsHeld :
    (sock : ℕ) (happens : List Answers) (s : Server) (r : Server × List (ℕ × Answer))
    → IsHeld s
    → rounds sock happens s ≡ some r
    → IsHeld (r.0)
unfolding rounds
rounds-IsHeld sock [] s r h e = subst (λ r. IsHeld (r.0)) (some-eq e) h
rounds-IsHeld sock (a ∷ more) s r h e =
    let (q, first, e1) = >>=-eq-some (round a sock s) _ e in
    let (rest, later, same) = >>=-eq-some (rounds sock more (q.0)) _ e1 in
    subst (λ r. IsHeld (r.0)) (some-eq same)
      (rounds-IsHeld sock more (q.0) rest (round-IsHeld a sock s q h first) later)

no_clients-IsHeld : IsHeld no_clients
no_clients-IsHeld = record { held = λ fd used. ground (arith, used) }

-- While the server goes on, whatever select, accept, recv and send give in each round, each descriptor
-- stands in no more places than it has open connections: the server never uses one that it has closed.
pub main-IsHeld :
    (o : Opening) (happens : List Answers) (r : Server × List (ℕ × Answer))
    → main o happens ≡ some r
    → IsHeld (r.0)
unfolding main
main-IsHeld o happens r e = by_socket o.socket (is_negative o.bind) (is_negative o.listen) e
  where
    by_socket :
        (z : ℤ) (b l : Bool)
        → (elim z [
          | negsuc e ↦ none
          | pos sock ↦ if b then none else if l then none else rounds sock happens no_clients
        ])
          ≡ some r
        → IsHeld (r.0)
    by_socket (negsuc n) b l e = cc
    by_socket (pos sock) true l e = cc
    by_socket (pos sock) false true e = cc
    by_socket (pos sock) false false e = rounds-IsHeld sock happens no_clients r no_clients-IsHeld e
