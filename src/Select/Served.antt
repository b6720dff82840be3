-- ===== src/Select/Served.antt =====
-- lab_08/part2/server.c: the loop over the clients answers those that have sent something.
use os6_bmstu_iu.Common.{
  times, ℕ, ◌+◌, ◌≤◌, ◌≡◌, ◌≢◌, refl, Bool, true, false, not, ◌&&◌, some, List, [], ◌∷◌,
  is_negative, arith, ◌==◌, ==_refl, if◌then◌else◌, length, Bool-cases, inl, inr,
}
use os6_bmstu_iu.Select.{Answers, Answer, answer, is_zero, is_set, without, serve}
use os6_bmstu_iu.Select.Slots.{one_if, times-without}

module _ (a : Answers) (set : List ℕ) where
  -- A client that has sent something, and one that has gone.
  abbrev pub speaks : ℕ → Bool
  speaks v = not (v == 0) && is_set a set v

  abbrev pub gone : ℕ → Bool
  gone v = is_zero ((a.recv v).rv)

  -- The places after the round: those of clients that have gone are free.
  abbrev pub remaining : List ℕ → List ℕ
  remaining [] = []
  remaining (v ∷ vs) =
      if speaks v then (if gone v then 0 ∷ remaining vs else v ∷ remaining vs) else v ∷ remaining vs

  -- Each client that speaks gets one answer, in the order of the places.
  abbrev pub answers : ℕ → List ℕ → List (ℕ × Answer)
  answers i [] = []
  answers i (v ∷ vs) =
      if speaks v
      then (if gone v
          then answers (i + 1) vs
          else (i, answer ((a.recv v).buf)) ∷ answers (i + 1) vs)
      else answers (i + 1) vs

  -- What the loop over the clients gives: a connection is closed when, and only when, its place
  -- becomes free.
  pub record Serves (i : ℕ) (vs open_socks : List ℕ) : Type 0 where
    pub left : List ℕ
    pub result : serve a set i vs open_socks ≡ some (remaining vs, left, answers i vs)
    pub account :
        (fd : ℕ)
        → fd ≢ 0
        → times fd (remaining vs) + times fd open_socks ≡ times fd vs + times fd left

  used_if : (v : ℕ) → speaks v ≡ true → v ≢ 0
  used_if v ready zero_v = ground (arith, ready, zero_v)

  is_open :
      (v : ℕ) (vs open_socks : List ℕ)
      → times v (v ∷ vs) ≤ times v open_socks
      → 1 ≤ times v open_socks
  is_open v vs open_socks le = ground (arith, le, ==_refl v)

  pub serve-Serves :
      (i : ℕ) (vs open_socks : List ℕ)
      → ((fd : ℕ) → is_negative (a.send fd) ≡ false)
      → ((fd : ℕ) → fd ≢ 0 → times fd vs ≤ times fd open_socks)
      → Serves i vs open_socks
  unfolding serve
  serve-Serves i [] open_socks sends owned = record {
    left = open_socks;
    result = refl;
    account = λ fd used. refl;
  }
  serve-Serves i (v ∷ vs) open_socks sends owned = elim (Bool-cases (speaks v)) [
    | inr quiet ↦
        let rest =
          serve-Serves (i + 1) vs open_socks sends (λ fd used. ground (arith, owned fd used)) in
        record {
          left = rest.left;
          result = rw (quiet, rest.result);
          account = λ fd used. rw quiet (ground (arith, rest.account fd used));
        }
    | inl ready ↦ elim (Bool-cases (gone v)) [
      | inl left ↦
          let used_v = used_if v ready in
          let closing : (fd : ℕ)
              → times fd (without v open_socks) + one_if fd v ≡ times fd open_socks =
            λ fd. times-without fd v open_socks (is_open v vs open_socks (owned v used_v)) in
          let rest =
            serve-Serves (i + 1) vs (without v open_socks) sends
              (λ fd used. ground (arith, owned fd used, closing fd)) in
          record {
            left = rest.left;
            result = rw (ready, left, rest.result);
            account = λ fd used.
                rw (ready, left) (ground (arith, rest.account fd used, closing fd, used));
          }
      | inr stays ↦
          let rest =
            serve-Serves (i + 1) vs open_socks sends (λ fd used. ground (arith, owned fd used)) in
          record {
            left = rest.left;
            result = rw (ready, stays, sends v, rest.result);
            account = λ fd used. rw (ready, stays) (ground (arith, rest.account fd used));
          }
    ]
  ]

pub length-remaining : (a : Answers) (set vs : List ℕ) → length (remaining a set vs) ≡ length vs
length-remaining a set [] = refl
length-remaining a set (v ∷ vs) = ground (arith, length-remaining a set vs)

pub times-remaining :
    (a : Answers) (set : List ℕ) (fd : ℕ) (vs : List ℕ)
    → fd ≢ 0
    → times fd (remaining a set vs) ≤ times fd vs
times-remaining a set fd [] used = omega arith
times-remaining a set fd (v ∷ vs) used = ground (arith, times-remaining a set fd vs used, used)
