-- ===== src/Turns/Paired.antt =====
-- lab_05/src/app2_threads_right.c: where the two threads can be at the same time.
use os6_bmstu_iu.Common.{◌≡◌, refl, ap, sym, ◌∙◌, subst, Bool, true, false, List, ℕ}
use os6_bmstu_iu.Alphabet.{Thread, first, second, put}
use os6_bmstu_iu.Turns.{
  Stage, unborn, created, ready, reading, got, leaving, stopped, returned, failed, System, Step,
  create, refuse, newline, lock, read, at_end, write, unlock, join, Reach, begin, next,
}

abbrev pub is_running : Stage → Bool
is_running ready = true
is_running reading = true
is_running (got c) = true
is_running leaving = true
is_running stopped = true
is_running _ = false

-- The other thread runs while `main` does; it has stopped when `main` has returned.
abbrev pub Paired : Stage → Stage → Type 0
Paired unborn w = w ≡ unborn
Paired failed w = w ≡ unborn
Paired returned w = w ≡ stopped
Paired created w = is_running w ≡ true
Paired ready w = is_running w ≡ true
Paired reading w = is_running w ≡ true
Paired (got c) w = is_running w ≡ true
Paired leaving w = is_running w ≡ true
Paired stopped w = is_running w ≡ true

started : (v w : Stage) → is_running v ≡ true → is_running w ≡ true → Paired v w
started unborn w r p = cc
started created w r p = p
started ready w r p = p
started reading w r p = p
started (got c) w r p = p
started leaving w r p = p
started stopped w r p = p
started returned w r p = cc
started failed w r p = cc

Paired-first :
    (v v' w : Stage) → is_running v ≡ true → is_running v' ≡ true → Paired v w → Paired v' w
Paired-first unborn v' w r r' p = cc
Paired-first created v' w r r' p = cc
Paired-first returned v' w r r' p = cc
Paired-first failed v' w r r' p = cc
Paired-first ready v' w r r' p = started v' w r' p
Paired-first reading v' w r r' p = started v' w r' p
Paired-first (got c) v' w r r' p = started v' w r' p
Paired-first leaving v' w r r' p = started v' w r' p
Paired-first stopped v' w r r' p = started v' w r' p

Paired-second :
    (v w w' : Stage)
    → is_running w ≡ true
    → (w ≡ stopped → ⊥)
    → is_running w' ≡ true
    → Paired v w
    → Paired v w'
Paired-second unborn w w' r going r' p = cc
Paired-second failed w w' r going r' p = cc
Paired-second returned w w' r going r' p = absurd (going p)
Paired-second created w w' r going r' p = r'
Paired-second ready w w' r going r' p = r'
Paired-second reading w w' r going r' p = r'
Paired-second (got c) w w' r going r' p = r'
Paired-second leaving w w' r going r' p = r'
Paired-second stopped w w' r going r' p = r'

-- A thread that runs and has not stopped goes on to another stage at which it runs.
put-Paired :
    (stage : Thread → Stage) (t : Thread) (v v' : Stage)
    → stage t ≡ v
    → is_running v ≡ true
    → (v ≡ stopped → ⊥)
    → is_running v' ≡ true
    → Paired (stage first) (stage second)
    → Paired (put t v' stage first) (put t v' stage second)
put-Paired stage first v v' e r going r' p =
    Paired-first (stage first) v' (stage second) (ap is_running e ∙ r) r' p
put-Paired stage second v v' e r going r' p =
    Paired-second (stage first) (stage second) v' (ap is_running e ∙ r)
      (λ same. going (sym e ∙ same)) r' p

step-Paired :
    (file : List ℕ) (s s' : System)
    → Step file s s'
    → Paired (s.stage first) (s.stage second)
    → Paired (s'.stage first) (s'.stage second)
step-Paired file s s' (create e e2) p = refl
step-Paired file s s' (refuse e) p = subst (λ v. Paired v (s.stage second)) e p
step-Paired file s s' (newline e) p = subst (λ v. Paired v (s.stage second)) e p
step-Paired file s s' (lock t e free) p =
    put-Paired s.stage t ready reading e refl (λ same. cc) refl p
step-Paired file s s' (read t c e byte) p =
    put-Paired s.stage t reading (got c) e refl (λ same. cc) refl p
step-Paired file s s' (at_end t e no_byte) p =
    put-Paired s.stage t reading leaving e refl (λ same. cc) refl p
step-Paired file s s' (write t c e) p =
    put-Paired s.stage t (got c) reading e refl (λ same. cc) refl p
step-Paired file s s' (unlock t e) p =
    put-Paired s.stage t leaving stopped e refl (λ same. cc) refl p
step-Paired file s s' (join e e2) p = e2

pub reach-Paired :
    (file : List ℕ) (s : System) → Reach file s → Paired (s.stage first) (s.stage second)
reach-Paired file s begin = refl
reach-Paired file s (next {s = s0} past step) =
    step-Paired file s0 s step (reach-Paired file s0 past)
