-- ===== src/Turns/Ends.antt =====
-- lab_05/src/app2_threads_right.c: every run comes to an end, and none gets stuck.
use os6_bmstu_iu.Common.{
  ℕ, zero, suc, ◌+◌, ◌-◌, ◌*◌, ◌≤◌, ◌<◌, ◌≡◌, ◌⊎◌, inl, inr, refl, ap, true, Option, none, some,
  List, [], ◌∷◌, arith, length, get_elem?,
}
use os6_bmstu_iu.Alphabet.{Thread, first, second, put}
use os6_bmstu_iu.Turns.{
  Stage, unborn, created, ready, reading, got, leaving, stopped, returned, failed, System, Step,
  create, refuse, newline, lock, read, at_end, write, unlock, join, Reach, begin, next,
}
use os6_bmstu_iu.Turns.Paired.{Paired, is_running, reach-Paired}
use os6_bmstu_iu.Turns.Moves.{IsTurn, is_inside}
use os6_bmstu_iu.Turns.Whole.{reach-IsTurn}

-- How many steps a thread has left at most, at its stage and offset.
abbrev cost : List ℕ → Stage → ℕ → ℕ
cost file unborn n = 2 * length file + 6
cost file created n = 2 * length file + 5
cost file ready n = 2 * length file + 4
cost file reading n = 2 * (length file - n) + 3
cost file (got c) n = 2 * (length file - n) + 4
cost file leaving n = 2
cost file stopped n = 1
cost file returned n = 0
cost file failed n = 0

abbrev steps_left : List ℕ → System → ℕ
steps_left file s =
    cost file (s.stage first) (s.offset first) + cost file (s.stage second) (s.offset second)

get-inside : (xs : List ℕ) (n c : ℕ) → get_elem? xs n ≡ some c → n < length xs
get-inside [] n c e = cc
get-inside (x ∷ xs) zero c e = omega arith
get-inside (x ∷ xs) (suc n) c e = omega (arith, get-inside xs n c e)

-- The thread that moves has fewer steps left.
put-fewer :
    (file : List ℕ) (s : System) (t : Thread) (v v' : Stage) (n : ℕ)
    → s.stage t ≡ v
    → cost file v' n < cost file v (s.offset t)
    → cost file (put t v' s.stage first) (put t n s.offset first)
        + cost file (put t v' s.stage second) (put t n s.offset second)
      < steps_left file s
put-fewer file s first v v' n e less = rw e (omega arith)
put-fewer file s second v v' n e less = rw e (omega arith)

stay-fewer :
    (file : List ℕ) (s : System) (t : Thread) (v v' : Stage)
    → s.stage t ≡ v
    → cost file v' (s.offset t) < cost file v (s.offset t)
    → cost file (put t v' s.stage first) (s.offset first)
        + cost file (put t v' s.stage second) (s.offset second)
      < steps_left file s
stay-fewer file s first v v' e less = rw e (omega arith)
stay-fewer file s second v v' e less = rw e (omega arith)

step-fewer :
    (file : List ℕ) (s s' : System) → Step file s s' → steps_left file s' < steps_left file s
step-fewer file s s' (create e e2) = rw (e, e2) (omega arith)
step-fewer file s s' (refuse e) = stay-fewer file s first unborn failed e (omega arith)
step-fewer file s s' (newline e) = stay-fewer file s first created ready e (omega arith)
step-fewer file s s' (lock t e free) = stay-fewer file s t ready reading e (omega arith)
step-fewer file s s' (read t c e byte) =
    let inside = get-inside file (s.offset t) c byte in
    put-fewer file s t reading (got c) (s.offset t + 1) e (omega arith)
step-fewer file s s' (at_end t e no_byte) = stay-fewer file s t reading leaving e (omega arith)
step-fewer file s s' (write t c e) = stay-fewer file s t (got c) reading e (omega arith)
step-fewer file s s' (unlock t e) = stay-fewer file s t leaving stopped e (omega arith)
step-fewer file s s' (join e e2) = stay-fewer file s first stopped returned e (omega arith)

abbrev pub steps : {file : List ℕ} {s : System} → Reach file s → ℕ
steps begin = 0
steps (next past step) = suc (steps past)

reach-bounded :
    (file : List ℕ) (s : System) (r : Reach file s)
    → steps r + steps_left file s ≤ 4 * length file + 12
reach-bounded file s begin = omega arith
reach-bounded file s (next {s = s0} past step) =
    omega (arith, reach-bounded file s0 past, step-fewer file s0 s step)

Goes : List ℕ → System → Type 0
Goes file s = (s' : System) × Step file s s'

module _ (file : List ℕ) (s : System) (h : IsTurn file s) where
  inside_step : (t : Thread) (v : Stage) → s.stage t ≡ v → is_inside v ≡ true → Goes file s
  unfolding Goes
  inside_step t reading e i = by_byte (get_elem? file (s.offset t)) refl
    where
      by_byte : (o : Option ℕ) → get_elem? file (s.offset t) ≡ o → Goes file s
      by_byte none byte = (_, at_end t e byte)
      by_byte (some c) byte = (_, read t c e byte)
  inside_step t (got c) e i = (_, write t c e)
  inside_step t leaving e i = (_, unlock t e)
  inside_step t unborn e i = cc
  inside_step t created e i = cc
  inside_step t ready e i = cc
  inside_step t stopped e i = cc
  inside_step t returned e i = cc
  inside_step t failed e i = cc

  -- A thread before pthread_mutex_lock takes the mutex, or its owner goes on.
  ready_step : (t : Thread) → s.stage t ≡ ready → (m : Option Thread) → s.mutex ≡ m → Goes file s
  unfolding Goes
  ready_step t e none free = (_, lock t e free)
  ready_step t e (some u) own = inside_step u (s.stage u) refl (h.held u own)

  running_step :
      (t : Thread) (v : Stage)
      → s.stage t ≡ v
      → is_running v ≡ true
      → (s.stage t ≡ stopped) ⊎ Goes file s
  running_step t ready e r = inr (ready_step t e s.mutex refl)
  running_step t reading e r = inr (inside_step t reading e refl)
  running_step t (got c) e r = inr (inside_step t (got c) e refl)
  running_step t leaving e r = inr (inside_step t leaving e refl)
  running_step t stopped e r = inl e
  running_step t unborn e r = cc
  running_step t created e r = cc
  running_step t returned e r = cc
  running_step t failed e r = cc

  both_running :
      is_running (s.stage first) ≡ true → is_running (s.stage second) ≡ true → Goes file s
  unfolding Goes
  both_running one two = elim (running_step first (s.stage first) refl one) [
    | inr goes ↦ goes
    | inl at ↦ elim (running_step second (s.stage second) refl two) [
      | inr goes ↦ goes
      | inl at2 ↦ (_, join at at2)
    ]
  ]

  next_step :
      (v : Stage)
      → s.stage first ≡ v
      → Paired v (s.stage second)
      → ((v ≡ returned) ⊎ (v ≡ failed)) ⊎ Goes file s
  unfolding Goes
  next_step unborn e p = inr (_, create e p)
  next_step created e p = inr (_, newline e)
  next_step returned e p = inl (inl refl)
  next_step failed e p = inl (inr refl)
  next_step ready e p = inr (both_running (ap is_running e) p)
  next_step reading e p = inr (both_running (ap is_running e) p)
  next_step (got c) e p = inr (both_running (ap is_running e) p)
  next_step leaving e p = inr (both_running (ap is_running e) p)
  next_step stopped e p = inr (both_running (ap is_running e) p)

-- Under any interleaving, a run takes at most four steps for each byte of the file and twelve more,
-- and as long as `main` has neither returned nor given up after pthread_create there is a next step.
pub reach-Ends :
    (file : List ℕ) (s : System) (r : Reach file s)
    → (steps r ≤ 4 * length file + 12)
      × (((s.stage first ≡ returned) ⊎ (s.stage first ≡ failed)) ⊎ ((s' : System) × Step file s s'))
unfolding Goes
reach-Ends file s r = (
  omega (arith, reach-bounded file s r),
  next_step file s (reach-IsTurn file s r) (s.stage first) refl (reach-Paired file s r),
)
