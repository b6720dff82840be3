-- ===== src/Select/Round.antt =====
-- lab_08/part2/server.c: a round serves every client that has sent something, and keeps account of
-- the connections.
use os6_bmstu_iu.Common.{
  times, ℕ, suc, ◌≤◌, ◌≡◌, ◌≢◌, ap, ◌∙◌, true, false, some, List, [], ◌∷◌, pos, is_negative, arith,
  ◌==◌, ==_iff, ==_refl, length, Bool-cases, inl, inr,
}
use os6_bmstu_iu.Select.{
  Server, Answers, Answer, is_set, watch, place, welcome, round, max_count_sock,
}
use os6_bmstu_iu.Select.Slots.{place-free, place-full, length-place, watch-sock}
use os6_bmstu_iu.Select.Served.{remaining, answers, serve-Serves, times-remaining}

-- Every open connection has exactly one place.
pub record IsExact (s : Server) : Type 0 where
  pub places : length s.arr_sock ≡ max_count_sock
  pub account : (fd : ℕ) → fd ≢ 0 → times fd s.arr_sock ≡ times fd s.open_socks
  pub once : (fd : ℕ) → fd ≢ 0 → times fd s.open_socks ≤ 1

-- A new connection, with a descriptor that is not in use, and a free place for it.
pub record Accepts (a : Answers) (s : Server) : Type 0 where
  pub number : ℕ
  pub value : a.newsock ≡ pos number
  pub not_stdin : number ≢ 0
  pub unused : times number s.open_socks ≡ 0
  pub free : 1 ≤ times 0 s.arr_sock

one_more :
    (open_socks : List ℕ) (number : ℕ)
    → times number open_socks ≡ 0
    → (fd : ℕ) → times fd open_socks ≤ 1
    → times fd (number ∷ open_socks) ≤ 1
one_more open_socks number unused fd once = elim (Bool-cases (fd == number)) [
  | inl same ↦
      let e : fd ≡ number = (==_iff fd number).0 same in
      rw same (omega (arith, ap (λ n. times n open_socks) e, unused))
  | inr other ↦ rw other once
]

-- The test for a new client gives the client its place.
pub welcome-IsExact :
    (a : Answers) (sock : ℕ) (set : List ℕ) (s : Server)
    → IsExact s
    → Accepts a s
    → (s' : Server) × (welcome a sock set s ≡ some s') × IsExact s'
unfolding welcome
welcome-IsExact a sock set s h new = elim (Bool-cases (is_set a set sock)) [
  | inr quiet ↦ (s, rw quiet, h)
  | inl ready ↦
      let placed = place-free new.number s.arr_sock new.free in
      (
        record {
          arr_sock = (place new.number s.arr_sock).0;
          open_socks = new.number ∷ s.open_socks;
        },
        rw (ready, new.value),
        record {
          places = length-place new.number s.arr_sock ∙ h.places;
          account = λ fd used. ground (arith, placed.1 fd used, h.account fd used);
          once = λ fd used. one_more s.open_socks new.number new.unused fd (h.once fd used);
        },
      )
]

-- Without a free place the places stay as they are.
welcome-full :
    (a : Answers) (sock : ℕ) (set : List ℕ) (s : Server) (number : ℕ)
    → is_set a set sock ≡ true
    → a.newsock ≡ pos number
    → times 0 s.arr_sock ≡ 0
    → welcome a sock set s ≡ some (record s { open_socks = number ∷ s.open_socks })
unfolding welcome
welcome-full a sock set s number ready value full =
    rw (ready, value, place-full number s.arr_sock full)

-- After a round without failures of `select` and `send`, in which `accept` gives a descriptor that
-- is not in use while all places are taken, that connection is open and in none of the places.
pub round-lost :
    (a : Answers) (sock : ℕ) (s : Server) (number : ℕ)
    → IsExact s
    → times 0 s.arr_sock ≡ 0
    → a.changed sock ≡ true
    → a.newsock ≡ pos number
    → number ≢ 0
    → times number s.open_socks ≡ 0
    → is_negative a.rc ≡ false
    → ((fd : ℕ) → is_negative (a.send fd) ≡ false)
    → (s' : Server) × (log : List (ℕ × Answer)) × (round a sock s ≡ some (s', log))
      × (times number s'.open_socks ≡ 1)
      × (times number s'.arr_sock ≡ 0)
unfolding round
round-lost a sock s number h full comes value used unused selects sends =
    let set = (watch s.arr_sock (sock ∷ []) sock).0 in
    let watched : is_set a set sock ≡ true = rw (watch-sock s.arr_sock sock, comes) in
    let welcomed = welcome-full a sock set s number watched value full in
    let served =
      serve-Serves a set 0 s.arr_sock (number ∷ s.open_socks) sends
        (λ fd other. ground (arith, h.account fd other)) in
    let s' : Server = record { arr_sock = remaining a set s.arr_sock; open_socks = served.left } in
    let none_before : times number s.arr_sock ≡ 0 = h.account number used ∙ unused in
    let none_after : times number (remaining a set s.arr_sock) ≡ 0 =
      omega (arith, times-remaining a set number s.arr_sock used) in
    let opened : times number (number ∷ s.open_socks) ≡ 1 = rw (==_refl number) (ap suc unused) in
    (
      s',
      answers a set 0 s.arr_sock,
      rw (selects, welcomed, served.result),
      omega (arith, served.account number used),
      none_after,
    )
