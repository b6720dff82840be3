-- ===== src/Select/Session.antt =====
-- lab_08/part2: one client and the server, from the connection on.
mod Tests
use os6_bmstu_iu.Common.{
  ℕ, zero, suc, ◌+◌, ◌*◌, ◌/◌, ◌%◌, ◌^◌, ◌≤◌, ◌<◌, ◌≡◌, ◌≢◌, refl, ap, sym, ◌∙◌, Bool, true, false,
  Bool-cases, inl, inr, Option, none, some, List, [], ◌∷◌, ◌++◌, ℤ, pos, is_negative, ltb, lt→ltb,
  ◌==◌, ==_ne, ==_refl, if◌then◌else◌, length, length-append, replicate, arith, c_string, print,
  print_in,
}
use os6_bmstu_iu.Select.{
  place, Server, Answers, Answer, squared, answer, is_zero, no_clients, watch, welcome, serve,
  round,
}
use os6_bmstu_iu.Select.Run.{Opening, rounds, main}
use os6_bmstu_iu.Select.Client.{max_len_buf, Ending, asks, Turn, loop}
use os6_bmstu_iu.Select.Client
use os6_bmstu_iu.Select.Client.Squares.{answer-print}

-- Ten to the power `suc m`.
power : ℕ → ℕ
power zero = 10
power (suc m) = 10 * power m

length-print_in : (m k n : ℕ) → n < power m → length (print_in k n) ≤ suc m
unfolding power print_in
length-print_in m zero n small = omega arith
length-print_in zero (suc k) n small = rw (lt→ltb n 10 small) (omega arith)
length-print_in (suc m) (suc k) n small = elim (Bool-cases (ltb n 10)) [
  | inl one ↦ rw one (omega arith)
  | inr more ↦ rw more (
      omega (
        arith,
        length-append (print_in k (n / 10)) ((b'0' + n % 10) ∷ []),
        length-print_in m k (n / 10) (omega arith),
      ))
]

-- A number whose square fits an int has five digits at most.
square-lt : (n : ℕ) → n * n < 2 ^ 31 → n < 100000
square-lt n small = grind arith

length-print : (n : ℕ) → n * n < 2 ^ 31 → length (print n) < max_len_buf
unfolding print power
length-print n small = let few = length-print_in 4 (suc n) n (square-lt n small) in omega arith

-- Numbers that are not 0 and whose squares fit an int.
abbrev pub AreSmall : List ℕ → Type 0
AreSmall [] = Unit {0}
AreSmall (n ∷ ns) = (0 < n) × (n * n < 2 ^ 31) × AreSmall ns

-- A round in which `accept` gives the client a descriptor.
pub record Connects (sock fd : ℕ) (a : Answers) : Type 0 where
  pub selected : is_negative a.rc ≡ false
  pub changed : (x : ℕ) → a.changed x ≡ x == sock
  pub newsock : a.newsock ≡ pos fd

-- A round in which the client's text is received, with anything behind its zero.
pub record Hears (fd : ℕ) (text : List ℕ) (a : Answers) : Type 0 where
  pub selected : is_negative a.rc ≡ false
  pub changed : (x : ℕ) → a.changed x ≡ x == fd
  pub not_closed : is_zero (a.recv fd).rv ≡ false
  pub rest : List ℕ
  pub buf : (a.recv fd).buf ≡ text ++ (0 ∷ rest)
  pub answered : is_negative (a.send fd) ≡ false

abbrev pub HearsAll : ℕ → List ℕ → List Answers → Type 0
HearsAll fd [] [] = Unit {0}
HearsAll fd (n ∷ ns) (a ∷ more) = Hears fd (print n) a × HearsAll fd ns more
HearsAll fd _ _ = ⊥

-- The client types the numbers, and gets the same reply to each.
pub record Types (n : ℕ) (reply : List ℕ) (t : Turn) : Type 0 where
  pub word : t.word ≡ print n
  pub sends : t.sends ≡ true
  pub got : c_string t.buf_server ≡ some reply

abbrev pub TypesAll : List ℕ → List ℕ → List Turn → Type 0
TypesAll [] reply [] = Unit {0}
TypesAll (n ∷ ns) reply (t ∷ ts) = Types n reply t × TypesAll ns reply ts
TypesAll _ reply _ = ⊥

-- What the server prints, and what the client has sent and printed, the last one first.
abbrev pub squares : List ℕ → List (ℕ × Answer)
squares [] = []
squares (n ∷ ns) = (0, squared (n * n)) ∷ squares ns

abbrev pub sent_onto : List ℕ → List (List ℕ) → List (List ℕ)
sent_onto [] acc = acc
sent_onto (n ∷ ns) acc = sent_onto ns ((print n ++ (0 ∷ [])) ∷ acc)

abbrev pub replies_onto : List ℕ → List ℕ → List (List ℕ) → List (List ℕ)
replies_onto reply [] acc = acc
replies_onto reply (n ∷ ns) acc = replies_onto reply ns (reply ∷ acc)

-- The server with one client, in the first place.
abbrev pub one_client : ℕ → Server
one_client fd = record { arr_sock = fd ∷ replicate 9 0; open_socks = fd ∷ [] }

module _ (sock fd : ℕ) (used : 0 < fd) (apart : fd ≢ sock) where
  round-Connects :
      (a : Answers) → Connects sock fd a → round a sock no_clients ≡ some (one_client fd, [])
  unfolding round watch welcome serve place
  round-Connects a c =
      let other : fd == sock ≡ false = ==_ne fd sock apart in
      let in_use : fd == 0 ≡ false = ==_ne fd 0 (λ e. omega arith) in
      rw (c.selected, c.newsock, c.changed sock, ==_refl sock, other, in_use) refl

  round-Hears :
      (n : ℕ) (a : Answers)
      → 0 < n
      → n * n < 2 ^ 31
      → Hears fd (print n) a
      → round a sock (one_client fd) ≡ some (one_client fd, (0, squared (n * n)) ∷ [])
  unfolding round watch welcome serve
  round-Hears n a positive small h =
      let other : sock == fd ≡ false = ==_ne sock fd (λ e. apart (sym e)) in
      let in_use : fd == 0 ≡ false = ==_ne fd 0 (λ e. omega arith) in
      let seen : answer ((a.recv fd).buf) ≡ squared (n * n) =
        ap answer h.buf ∙ answer-print n h.rest positive small in
      rw
        (
          lt→ltb 0 fd used,
          h.selected,
          h.changed sock,
          other,
          ==_refl sock,
          h.changed fd,
          ==_refl fd,
          in_use,
          h.not_closed,
          h.answered,
          seen,
        )
        refl

  rounds-HearsAll :
      (ns : List ℕ) (more : List Answers)
      → AreSmall ns
      → HearsAll fd ns more
      → rounds sock more (one_client fd) ≡ some (one_client fd, squares ns)
  unfolding rounds
  rounds-HearsAll [] [] small h = refl
  rounds-HearsAll (n ∷ ns) (a ∷ more) small h =
      rw (round-Hears n a (small.0) (small.1) (h.0), rounds-HearsAll ns more (small.2) (h.1)) refl
  rounds-HearsAll [] (a ∷ more) small h = absurd h
  rounds-HearsAll (n ∷ ns) [] small h = absurd h

loop-TypesAll :
    (reply : List ℕ) (ns : List ℕ) (ts : List Turn) (sent printed : List (List ℕ))
    → AreSmall ns
    → TypesAll ns reply ts
    → loop ts sent printed ≡ asks (sent_onto ns sent) (replies_onto reply ns printed)
unfolding loop
loop-TypesAll reply [] [] sent printed small h = refl
loop-TypesAll reply (n ∷ ns) (t ∷ ts) sent printed small h =
    let fits : ltb (length t.word) max_len_buf ≡ true =
      ap (λ w. ltb (length w) max_len_buf) (h.0.word)
      ∙ lt→ltb (length (print n)) max_len_buf (length-print n (small.1)) in
    rw (fits, h.0.sends, h.0.got, h.0.word)
      (loop-TypesAll reply ns ts ((print n ++ (0 ∷ [])) ∷ sent) (reply ∷ printed) (small.2) (h.1))
loop-TypesAll reply [] (t ∷ ts) sent printed small h = absurd h
loop-TypesAll reply (n ∷ ns) [] sent printed small h = absurd h

module _ (sock fd : ℕ) (used : 0 < fd) (apart : fd ≢ sock) (o : Opening) (first : Answers)
    (more : List Answers) (ts : List Turn) (reply : List ℕ) where
  -- If the server opens its socket and accepts a client first, and then receives what the client
  -- sends, which are numbers other than 0 whose squares fit an int: it goes on, with that client in
  -- the first place, and prints the square of each number, in the order in which they were typed;
  -- and the client goes on, has sent the digits of each number with a zero, within its buffer, and
  -- has printed the reply of the server to each.
  pub main-squares :
      (ns : List ℕ)
      → o.socket ≡ pos sock
      → is_negative o.bind ≡ false
      → is_negative o.listen ≡ false
      → Connects sock fd first
      → AreSmall ns
      → HearsAll fd ns more
      → TypesAll ns reply ts
      → (main o (first ∷ more) ≡ some (one_client fd, squares ns))
        × (Client.main true true ts ≡ asks (sent_onto ns []) (replies_onto reply ns []))
  unfolding main rounds Client.main
  main-squares ns opened bound listens connects small hears types = (
    rw
        (
          opened,
          bound,
          listens,
          round-Connects sock fd used apart first connects,
          rounds-HearsAll sock fd used apart ns more small hears,
        )
        refl,
    loop-TypesAll reply ns ts [] [] small types,
  )
