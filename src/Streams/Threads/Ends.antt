-- ===== src/Streams/Threads/Ends.antt =====
-- lab_05/src/app1_threads.c: every run comes to an end, and none gets stuck.
use os6_bmstu_iu.Common.{
  ℕ, suc, ◌+◌, ◌*◌, ◌≤◌, ◌<◌, ◌≡◌, ◌≢◌, ◌⊎◌, inl, inr, refl, ap, true, false, List, [], ◌∷◌, arith,
  length, length-append, take, drop, times, take-append-drop, Bool-cases,
}
use os6_bmstu_iu.Alphabet.{Thread, first, second}
use os6_bmstu_iu.Streams.Threads.{
  buf_size, is_space, Stage, asking, skipping, printing, stopped, returned, wants, System, Step,
  fill, read, at_end, skip, met, no_more, fprintf, join, Reach, begin, next,
}
use os6_bmstu_iu.Streams.Threads.Kept.{both, both-put, with_reader, account, reach-account}
use os6_bmstu_iu.Streams.Threads.Stages.{Over, reach-Over, IsJoined, reach-IsJoined}

-- How many steps a thread has left at most with the bytes that it holds.
abbrev stage_cost : Stage → ℕ
stage_cost asking = 2
stage_cost (skipping c) = 5
stage_cost (printing c) = 4
stage_cost stopped = 1
stage_cost returned = 0

abbrev cost : Stage × List ℕ → ℕ
cost (v, buf) = stage_cost v + 5 * length buf

steps_left : System → ℕ
steps_left s = both cost s.at + 6 * length s.unread

-- A buffer that is filled from a file with something left takes a byte at least.
filled :
    (unread : List ℕ) (c : ℕ) (rest : List ℕ)
    → unread ≡ c ∷ rest
    → 5 * length (take buf_size unread) + 6 * length (drop buf_size unread) < 6 * length unread
filled [] c rest more = cc
filled (u ∷ us) c rest more = omega (
  arith,
  length-append (take buf_size (u ∷ us)) (drop buf_size (u ∷ us)),
  ap length (take-append-drop buf_size (u ∷ us)),
)

step-fewer : (s s' : System) → Step s s' → steps_left s' < steps_left s
unfolding steps_left
step-fewer s s' (fill t v c rest e want more) =
    omega (
      arith,
      both-put cost s.at t (v, []) (v, take buf_size s.unread) e,
      filled s.unread c rest more,
    )
step-fewer s s' (read t c buf e) =
    omega (arith, both-put cost s.at t (asking, c ∷ buf) (skipping c, buf) e)
step-fewer s s' (at_end t e none_left) =
    omega (arith, both-put cost s.at t (asking, []) (stopped, []) e)
step-fewer s s' (skip t d c buf e space) =
    omega (arith, both-put cost s.at t (skipping d, c ∷ buf) (skipping d, buf) e)
step-fewer s s' (met t d c buf e ink) =
    omega (arith, both-put cost s.at t (skipping d, c ∷ buf) (printing d, c ∷ buf) e)
step-fewer s s' (no_more t d e none_left) =
    omega (arith, both-put cost s.at t (skipping d, []) (printing d, []) e)
step-fewer s s' (fprintf t d buf e) =
    omega (arith, both-put cost s.at t (printing d, buf) (asking, buf) e)
step-fewer s s' (join buf buf2 e e2) =
    omega (arith, both-put cost s.at first (stopped, buf) (returned, buf) e)

abbrev pub steps : {file : List ℕ} {s : System} → Reach file s → ℕ
steps begin = 0
steps (next past step) = suc (steps past)

reach-bounded :
    (file : List ℕ) (s : System) (r : Reach file s) → steps r + steps_left s ≤ 6 * length file + 4
unfolding steps_left both
reach-bounded file s begin = omega arith
reach-bounded file s (next {s = s0} past step) =
    omega (arith, reach-bounded file s0 past, step-fewer s0 s step)

abbrev Goes : System → Type 0
Goes s = (s' : System) × Step s s'

module _ (s : System) (t : Thread) where
  -- A thread with an empty buffer fills it, unless all of the file has been read.
  empty_step :
      (v : Stage)
      → s.at t ≡ (v, [])
      → wants v ≡ true
      → (s.unread ≡ [] → Goes s)
      → (u : List ℕ) → s.unread ≡ u
      → Goes s
  empty_step v e want at_eof [] left = at_eof left
  empty_step v e want at_eof (c ∷ rest) left = (_, fill t v c rest e want left)

  skip_step : (d c : ℕ) (buf : List ℕ) → s.at t ≡ (skipping d, c ∷ buf) → Goes s
  skip_step d c buf e = elim (Bool-cases (is_space c)) [
    | inl space ↦ (_, skip t d c buf e space)
    | inr ink ↦ (_, met t d c buf e ink)
  ]

  reader_step : (p : Stage × List ℕ) → s.at t ≡ p → (p.0 ≡ stopped) ⊎ ((p.0 ≡ returned) ⊎ Goes s)
  reader_step (asking, []) e =
      inr (inr (empty_step asking e refl (λ left. (_, at_end t e left)) s.unread refl))
  reader_step (asking, c ∷ buf) e = inr (inr (_, read t c buf e))
  reader_step (skipping d, []) e =
      inr (inr (empty_step (skipping d) e refl (λ left. (_, no_more t d e left)) s.unread refl))
  reader_step (skipping d, c ∷ buf) e = inr (inr (skip_step d c buf e))
  reader_step (printing d, buf) e = inr (inr (_, fprintf t d buf e))
  reader_step (stopped, buf) e = inl refl
  reader_step (returned, buf) e = inr (inl refl)

at_stopped : (p : Stage × List ℕ) → p.0 ≡ stopped → p ≡ (stopped, p.1)
at_stopped (v, buf) e = rw e

main_step : (s : System) → IsJoined s.at → ((s.at first).0 ≡ returned) ⊎ Goes s
main_step s j = elim (reader_step s first (s.at first) refl) [
  | inr (inl r) ↦ inl r
  | inr (inr goes) ↦ inr goes
  | inl one ↦ elim (reader_step s second (s.at second) refl) [
    | inr (inl r) ↦ absurd (j.not_second r)
    | inr (inr goes) ↦ inr goes
    | inl two ↦ inr (_, join _ _ (at_stopped (s.at first) one) (at_stopped (s.at second) two))
  ]
]

Over-stopped :
    (c : ℕ) (unread : List ℕ) (p : Stage × List ℕ)
    → Over unread p
    → (p.0 ≡ stopped) ⊎ (p.0 ≡ returned)
    → (with_reader c p ≡ 0) × (unread ≡ [])
Over-stopped c unread (stopped, buf) o e = rw (o.0) (refl, o.1)
Over-stopped c unread (returned, buf) o e = rw (o.0) (refl, o.1)
Over-stopped c unread (asking, buf) o (inl e) = cc
Over-stopped c unread (asking, buf) o (inr e) = cc
Over-stopped c unread (skipping d, buf) o (inl e) = cc
Over-stopped c unread (skipping d, buf) o (inr e) = cc
Over-stopped c unread (printing d, buf) o (inl e) = cc
Over-stopped c unread (printing d, buf) o (inr e) = cc

returned-times :
    (file : List ℕ) (s : System)
    → Reach file s
    → (s.at first).0 ≡ returned
    → (c : ℕ) → is_space c ≡ false
    → times c s.out ≡ times c file
unfolding account both
returned-times file s r e c ink =
    let one = Over-stopped c s.unread (s.at first) (reach-Over file s r first) (inr e) in
    let two =
      Over-stopped c s.unread (s.at second) (reach-Over file s r second)
        (inl ((reach-IsJoined file s r).joined e)) in
    omega (arith, reach-account file s r c ink, one.0, two.0, ap (times c) (one.1))

has_returned : (v : Stage) → (v ≡ returned) ⊎ (v ≢ returned)
has_returned returned = inl refl
has_returned asking = inr (λ e. cc)
has_returned (skipping c) = inr (λ e. cc)
has_returned (printing c) = inr (λ e. cc)
has_returned stopped = inr (λ e. cc)

-- Under any interleaving of the two threads a run takes at most six steps for each byte of the file
-- and four more; while `main` has not returned there is a next step; and once it has, the other
-- thread is behind its loop, and every byte that is not white space has been printed exactly as
-- often as it is in the file.
pub reach-Printed :
    (file : List ℕ) (s : System) (r : Reach file s)
    → (steps r ≤ 6 * length file + 4)
      × ((((s.at first).0 ≡ returned)
            × ((s.at second).0 ≡ stopped)
            × ((c : ℕ) → is_space c ≡ false → times c s.out ≡ times c file))
          ⊎ (((s.at first).0 ≢ returned) × ((s' : System) × Step s s')))
reach-Printed file s r = (
  omega (arith, reach-bounded file s r),
  elim (has_returned ((s.at first).0)) [
    | inl e ↦ inl (e, (reach-IsJoined file s r).joined e, returned-times file s r e)
    | inr away ↦ elim (main_step s (reach-IsJoined file s r)) [
      | inl e ↦ absurd (away e)
      | inr goes ↦ inr (away, goes)
    ]
  ],
)
