-- ===== src/Streams/Threads/Kept.antt =====
-- lab_05/src/app1_threads.c: what the steps keep: how often a byte is anywhere.
use os6_bmstu_iu.Common.{
  ℕ, ◌+◌, ◌≡◌, refl, ap, ◌∙◌, true, false, List, [], ◌∷◌, arith, take, drop, times, times-append,
  take-append-drop,
}
use os6_bmstu_iu.Alphabet.{Thread, first, second, put}
use os6_bmstu_iu.Streams.Threads.{
  buf_size, is_space, Stage, asking, skipping, printing, stopped, returned, System, Step, fill,
  read, at_end, skip, met, no_more, fprintf, join, Reach, begin, next,
}

-- A weight of the two threads, when one of them moves.
module _ (w : Stage × List ℕ → ℕ) where
  unfoldable pub both : (Thread → Stage × List ℕ) → ℕ
  both at = w (at first) + w (at second)

  pub both-put :
      (at : Thread → Stage × List ℕ) (t : Thread) (p q : Stage × List ℕ)
      → at t ≡ p
      → both (put t q at) + w p ≡ both at + w q
  unfolding both
  both-put at first p q e = rw e (omega arith)
  both-put at second p q e = rw e (omega arith)

-- How often a byte is with a thread.
abbrev pub with_reader : ℕ → Stage × List ℕ → ℕ
with_reader c (skipping d, buf) = times c (d ∷ []) + times c buf
with_reader c (printing d, buf) = times c (d ∷ []) + times c buf
with_reader c (_, buf) = times c buf

unfoldable pub account : ℕ → System → ℕ
account c s = times c s.out + both (with_reader c) s.at + times c s.unread

space-other : (c d : ℕ) → is_space c ≡ false → is_space d ≡ true → times c (d ∷ []) ≡ 0
space-other c d ink space = ground (arith, ink, space)

step-account : (c : ℕ) (s s' : System) → is_space c ≡ false → Step s s' → account c s' ≡ account c s
unfolding account
step-account c s s' ink (fill t asking d rest e want more) = omega (
  arith,
  both-put (with_reader c) s.at t (asking, []) (asking, take buf_size s.unread) e,
  times-append c (take buf_size s.unread) (drop buf_size s.unread),
  ap (times c) (take-append-drop buf_size s.unread),
)
step-account c s s' ink (fill t (skipping b) d rest e want more) = omega (
  arith,
  both-put (with_reader c) s.at t (skipping b, []) (skipping b, take buf_size s.unread) e,
  times-append c (take buf_size s.unread) (drop buf_size s.unread),
  ap (times c) (take-append-drop buf_size s.unread),
)
step-account c s s' ink (fill t (printing b) d rest e want more) = cc
step-account c s s' ink (fill t stopped d rest e want more) = cc
step-account c s s' ink (fill t returned d rest e want more) = cc
step-account c s s' ink (read t d buf e) = omega (
  arith,
  both-put (with_reader c) s.at t (asking, d ∷ buf) (skipping d, buf) e,
  times-append c (d ∷ []) buf,
)
step-account c s s' ink (at_end t e none_left) =
    omega (arith, both-put (with_reader c) s.at t (asking, []) (stopped, []) e)
step-account c s s' ink (skip t b d buf e space) = omega (
  arith,
  both-put (with_reader c) s.at t (skipping b, d ∷ buf) (skipping b, buf) e,
  times-append c (d ∷ []) buf,
  space-other c d ink space,
)
step-account c s s' ink (met t b d buf e other) =
    omega (arith, both-put (with_reader c) s.at t (skipping b, d ∷ buf) (printing b, d ∷ buf) e)
step-account c s s' ink (no_more t b e none_left) =
    omega (arith, both-put (with_reader c) s.at t (skipping b, []) (printing b, []) e)
step-account c s s' ink (fprintf t b buf e) = omega (
  arith,
  both-put (with_reader c) s.at t (printing b, buf) (asking, buf) e,
  times-append c s.out (b ∷ []),
)
step-account c s s' ink (join buf buf2 e e2) = omega (
  arith,
  both-put (with_reader c) s.at first (stopped, buf) (returned, buf) e,
  times-append c s.out (b'\n' ∷ b'\n' ∷ []),
  times-append c (b'\n' ∷ []) (b'\n' ∷ []),
  space-other c b'\n' ink refl,
)

pub reach-account :
    (file : List ℕ) (s : System)
    → Reach file s
    → (c : ℕ) → is_space c ≡ false
    → account c s ≡ times c file
unfolding account both
reach-account file s begin c ink = omega arith
reach-account file s (next {s = s0} past step) c ink =
    step-account c s0 s ink step ∙ reach-account file s0 past c ink
