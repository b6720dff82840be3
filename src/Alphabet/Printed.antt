-- ===== src/Alphabet/Printed.antt =====
-- lab_05/src/app2_threads.c: whatever the interleaving, the bytes come out in the order of the file.
use os6_bmstu_iu.Common.{
  none-some, ℕ, ◌+◌, ◌≤◌, ◌≡◌, ◌⊎◌, inl, inr, refl, ap, sym, ◌∙◌, subst, true, false, Option, none,
  some, List, length, take, take-le,
}
use os6_bmstu_iu.Alphabet.{
  Thread, first, second, Stage, outside, locked, sought, got, leaving, stopped, System, Step, lock,
  lseek, read, write, at_end, unlock, Reach,
}
use os6_bmstu_iu.Alphabet.Fine.{bytes, is_inside, Known, IsFine, reach-IsFine}

outside_if : false ≡ true → ⊥
outside_if e = cc

prefix_if :
    (file : List ℕ) (s : System) (t : Thread) (v : Stage)
    → Known file s t v
    → is_inside v ≡ true
    → (n : ℕ) × (bytes s.out ≡ take n file)
unfolding Known
prefix_if file s t outside k inside = cc
prefix_if file s t stopped k inside = cc
prefix_if file s t locked k inside = (s.file_pos, k)
prefix_if file s t sought k inside = (s.file_pos, k.0)
prefix_if file s t (got o) k inside = (s.file_pos, k.0)
prefix_if file s t (leaving true) k inside = (s.file_pos + 1, k)
prefix_if file s t (leaving false) k inside = (s.file_pos, k.0)

-- Whatever the interleaving, what has been written is the beginning of the file.
pub bytes-Reach :
    (file : List ℕ) (s : System) → Reach file s → (n : ℕ) × (bytes s.out ≡ take n file)
bytes-Reach file s path = by_owner s.mutex refl
  where
    fine : IsFine file s
    fine = reach-IsFine file s path

    by_owner : (m : Option Thread) → s.mutex ≡ m → (n : ℕ) × (bytes s.out ≡ take n file)
    by_owner none free = (s.file_pos, fine.idle free)
    by_owner (some t) own = prefix_if file s t (s.stage t) (fine.known t) (fine.held t own)

-- Whatever the interleaving, once both threads have stopped each byte of the file has been written
-- once, in the order of the file.
pub bytes-stopped :
    (file : List ℕ) (s : System)
    → Reach file s
    → s.stage first ≡ stopped
    → s.stage second ≡ stopped
    → bytes s.out ≡ file
unfolding Known
bytes-stopped file s path one two = by_owner s.mutex refl
  where
    fine : IsFine file s
    fine = reach-IsFine file s path

    past : length file ≤ s.file_pos
    past = subst (λ v. Known file s first v) one (fine.known first)

    stopped_out : (t : Thread) → s.stage t ≡ stopped
    stopped_out first = one
    stopped_out second = two

    by_owner : (m : Option Thread) → s.mutex ≡ m → bytes s.out ≡ file
    by_owner none free = fine.idle free ∙ take-le file s.file_pos past
    by_owner (some t) own =
        absurd (outside_if (ap is_inside (sym (stopped_out t)) ∙ fine.held t own))

-- With the mutex free a thread is outside or has stopped.
at_rest :
    (file : List ℕ) (s : System)
    → IsFine file s
    → (t : Thread) → s.mutex ≡ none
    → (s.stage t ≡ outside) ⊎ (s.stage t ≡ stopped)
at_rest file s h t free = by_stage (s.stage t) refl
  where
    by_stage : (v : Stage) → s.stage t ≡ v → (s.stage t ≡ outside) ⊎ (s.stage t ≡ stopped)
    by_stage outside e = inl e
    by_stage stopped e = inr e
    by_stage locked e = absurd (none-some free (h.owner t (ap is_inside e)))
    by_stage sought e = absurd (none-some free (h.owner t (ap is_inside e)))
    by_stage (got o) e = absurd (none-some free (h.owner t (ap is_inside e)))
    by_stage (leaving rc) e = absurd (none-some free (h.owner t (ap is_inside e)))

-- A thread that owns the mutex can go on.
inside_step :
    (file : List ℕ) (s : System) (t : Thread) (v : Stage)
    → s.stage t ≡ v
    → is_inside v ≡ true
    → (s' : System) × Step file s s'
inside_step file s t outside e inside = cc
inside_step file s t stopped e inside = cc
inside_step file s t locked e inside = (_, lseek t e)
inside_step file s t sought e inside = (_, read t e)
inside_step file s t (got (some c)) e inside = (_, write t c e)
inside_step file s t (got none) e inside = (_, at_end t e)
inside_step file s t (leaving rc) e inside = (_, unlock t rc e)

-- The two threads never block each other for good: some step is possible until both have stopped.
Step-exists :
    (file : List ℕ) (s : System)
    → Reach file s
    → ((s.stage first ≡ stopped) × (s.stage second ≡ stopped)) ⊎ ((s' : System) × Step file s s')
Step-exists file s path = by_owner s.mutex refl
  where
    fine : IsFine file s
    fine = reach-IsFine file s path

    by_owner :
        (m : Option Thread)
        → s.mutex ≡ m
        → ((s.stage first ≡ stopped) × (s.stage second ≡ stopped))
          ⊎ ((s' : System) × Step file s s')
    by_owner (some t) own = inr (inside_step file s t (s.stage t) refl (fine.held t own))
    by_owner none free = elim (at_rest file s fine first free) [
      | inl e ↦ inr (_, lock first e free)
      | inr e1 ↦ elim (at_rest file s fine second free) [
        | inl e ↦ inr (_, lock second e free)
        | inr e2 ↦ inl (e1, e2)
      ]
    ]
