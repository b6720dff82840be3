-- ===== src/Streams/Threads/Stages.antt =====
-- lab_05/src/app1_threads.c: where the threads are.
use os6_bmstu_iu.Common.{ℕ, ◌≡◌, ◌≢◌, refl, ap, sym, ◌∙◌, subst, true, List, [], ◌∷◌, take, drop}
use os6_bmstu_iu.Alphabet.{Thread, first, second, put}
use os6_bmstu_iu.Alphabet.Threads.{put-all}
use os6_bmstu_iu.Streams.Threads.{
  buf_size, Stage, asking, skipping, printing, stopped, returned, wants, System, Step, fill, read,
  at_end, skip, met, no_more, fprintf, join, Reach, begin, next,
}

-- A thread behind its loop has an empty buffer, and all of the file has been read.
abbrev pub Over : List ℕ → Stage × List ℕ → Type 0
Over unread (stopped, buf) = (buf ≡ []) × (unread ≡ [])
Over unread (returned, buf) = (buf ≡ []) × (unread ≡ [])
Over unread _ = Unit {0}

Over-fill :
    (unread unread' : List ℕ) (c : ℕ) (rest : List ℕ) (p : Stage × List ℕ)
    → unread ≡ c ∷ rest
    → Over unread p
    → Over unread' p
Over-fill unread unread' c rest (asking, buf) more o = tt
Over-fill unread unread' c rest (skipping d, buf) more o = tt
Over-fill unread unread' c rest (printing d, buf) more o = tt
Over-fill unread unread' c rest (stopped, buf) more o = let left = o.1 in cc
Over-fill unread unread' c rest (returned, buf) more o = let left = o.1 in cc

Over-wants : (unread : List ℕ) (v : Stage) (buf : List ℕ) → wants v ≡ true → Over unread (v, buf)
Over-wants unread asking buf want = tt
Over-wants unread (skipping d) buf want = tt
Over-wants unread (printing d) buf want = tt
Over-wants unread stopped buf want = cc
Over-wants unread returned buf want = cc

step-Over :
    (s s' : System)
    → Step s s'
    → ((t : Thread) → Over s.unread (s.at t))
    → (t : Thread) → Over s'.unread (s'.at t)
step-Over s s' (fill t v c rest e want more) o =
    put-all (λ u. Over (drop buf_size s.unread)) t (v, take buf_size s.unread) s.at
      (Over-wants (drop buf_size s.unread) v (take buf_size s.unread) want)
      (λ u away. Over-fill s.unread (drop buf_size s.unread) c rest (s.at u) more (o u))
step-Over s s' (read t c buf e) o =
    put-all (λ u. Over s.unread) t (skipping c, buf) s.at tt (λ u away. o u)
step-Over s s' (at_end t e none_left) o =
    put-all (λ u. Over s.unread) t (stopped, []) s.at (refl, none_left) (λ u away. o u)
step-Over s s' (skip t d c buf e space) o =
    put-all (λ u. Over s.unread) t (skipping d, buf) s.at tt (λ u away. o u)
step-Over s s' (met t d c buf e ink) o =
    put-all (λ u. Over s.unread) t (printing d, c ∷ buf) s.at tt (λ u away. o u)
step-Over s s' (no_more t d e none_left) o =
    put-all (λ u. Over s.unread) t (printing d, []) s.at tt (λ u away. o u)
step-Over s s' (fprintf t d buf e) o =
    put-all (λ u. Over s.unread) t (asking, buf) s.at tt (λ u away. o u)
step-Over s s' (join buf buf2 e e2) o =
    put-all (λ u. Over s.unread) first (returned, buf) s.at (subst (Over s.unread) e (o first))
      (λ u away. o u)

pub reach-Over : (file : List ℕ) (s : System) → Reach file s → (t : Thread) → Over s.unread (s.at t)
reach-Over file s begin t = tt
reach-Over file s (next {s = s0} past step) t = step-Over s0 s step (reach-Over file s0 past) t

-- Only `main` returns, after the other thread has stopped.
pub record IsJoined (at : Thread → Stage × List ℕ) : Type 0 where
  pub joined : (at first).0 ≡ returned → (at second).0 ≡ stopped
  pub not_second : (at second).0 ≢ returned

put-IsJoined :
    (at : Thread → Stage × List ℕ) (t : Thread) (p q : Stage × List ℕ)
    → at t ≡ p
    → p.0 ≢ stopped
    → q.0 ≢ returned
    → IsJoined at
    → IsJoined (put t q at)
put-IsJoined at first p q e going away j = record {
  joined = λ r. absurd (away r);
  not_second = j.not_second;
}
put-IsJoined at second p q e going away j = record {
  joined = λ r. absurd (going (ap (λ x. x.0) (sym e) ∙ j.joined r));
  not_second = away;
}

wants-going : (v : Stage) → wants v ≡ true → (v ≢ stopped) × (v ≢ returned)
wants-going v want = ((λ e. cc), (λ e. cc))

step-IsJoined : (s s' : System) → Step s s' → IsJoined s.at → IsJoined s'.at
step-IsJoined s s' (fill t v c rest e want more) j =
    put-IsJoined s.at t (v, []) (v, take buf_size s.unread) e ((wants-going v want).0)
      ((wants-going v want).1) j
step-IsJoined s s' (read t c buf e) j =
    put-IsJoined s.at t (asking, c ∷ buf) (skipping c, buf) e (λ x. cc) (λ x. cc) j
step-IsJoined s s' (at_end t e none_left) j =
    put-IsJoined s.at t (asking, []) (stopped, []) e (λ x. cc) (λ x. cc) j
step-IsJoined s s' (skip t d c buf e space) j =
    put-IsJoined s.at t (skipping d, c ∷ buf) (skipping d, buf) e (λ x. cc) (λ x. cc) j
step-IsJoined s s' (met t d c buf e ink) j =
    put-IsJoined s.at t (skipping d, c ∷ buf) (printing d, c ∷ buf) e (λ x. cc) (λ x. cc) j
step-IsJoined s s' (no_more t d e none_left) j =
    put-IsJoined s.at t (skipping d, []) (printing d, []) e (λ x. cc) (λ x. cc) j
step-IsJoined s s' (fprintf t d buf e) j =
    put-IsJoined s.at t (printing d, buf) (asking, buf) e (λ x. cc) (λ x. cc) j
step-IsJoined s s' (join buf buf2 e e2) j = record {
  joined = λ r. ap (λ x. x.0) e2;
  not_second = j.not_second;
}

pub reach-IsJoined : (file : List ℕ) (s : System) → Reach file s → IsJoined s.at
reach-IsJoined file s begin = record { joined = λ r. cc; not_second = λ r. cc }
reach-IsJoined file s (next {s = s0} past step) =
    step-IsJoined s0 s step (reach-IsJoined file s0 past)
