-- ===== src/Writers/Appended.antt =====
-- lab_05/src/app3_threads.c: two threads that append to one file, each through its own stream.
use os6_bmstu_iu.Common.{
  ℕ, zero, suc, ◌+◌, ◌*◌, ◌≤◌, ◌<◌, ◌≡◌, Bool, true, false, arith, ◌⊎◌, inl, inr, refl, ap, sym,
  ◌∙◌, subst, List, [], ◌∷◌, ◌++◌,
}

-- `launchThread`, and `main` behind `pthread_create`.
pub data Thread : Type 0 where
  launched : Thread
  main : Thread

-- A thread in `writeChar`: before `fopen`, with some letters in the buffer of its stream, and behind
-- `fclose`.
pub data Stage : Type 0 where
  outside : Stage
  opened : (next : ℕ) → (buf : List ℕ) → Stage
  closed : Stage

abbrev pub put : Thread → Stage → (Thread → Stage) → Thread → Stage
put launched v g launched = v
put launched v g main = g main
put main v g launched = g launched
put main v g main = v

-- The letter that a thread begins with.
abbrev pub begins_with : Thread → ℕ
begins_with launched = b'A'
begins_with main = b'B'

pub record Shared : Type 0 where
  pub bytes : List ℕ
  pub stage : Thread → Stage

-- A call of one thread. The file is opened for appending, so `fclose` writes behind what is there.
pub data Step (s : Shared) : Shared → Type 0 where
  fopen :
      (t : Thread)
      → s.stage t ≡ outside
      → Step s (record s { stage = put t (opened (begins_with t) []) s.stage })
  fprintf :
      (t : Thread) (c : ℕ) (buf : List ℕ)
      → s.stage t ≡ opened c buf
      → c ≤ b'Z'
      → Step s (record s { stage = put t (opened (c + 2) (buf ++ (c ∷ []))) s.stage })
  fclose :
      (t : Thread) (c : ℕ) (buf : List ℕ)
      → s.stage t ≡ opened c buf
      → b'Z' < c
      → Step s (record { bytes = s.bytes ++ buf; stage = put t closed s.stage })

abbrev pub start : List ℕ → Shared
start old = record { bytes = old; stage = λ t. outside }

pub data Reach (old : List ℕ) : Shared → Type 0 where
  begin : Reach old (start old)
  next : {s s' : Shared} → Reach old s → Step s s' → Reach old s'

-- Every second letter from `c` on, `k` of them.
abbrev pub every_second : (k c : ℕ) → List ℕ
every_second zero c = []
every_second (suc k) c = c ∷ every_second k (c + 2)

-- All that a thread writes.
abbrev pub all_of : Thread → List ℕ
all_of t = every_second 13 (begins_with t)

every_second-suc : (k c : ℕ) → every_second k c ++ ((c + 2 * k) ∷ []) ≡ every_second (suc k) c
every_second-suc zero c = let same : c + 2 * 0 ≡ c = omega arith in rw same refl
every_second-suc (suc k) c =
    let same : c + 2 * suc k ≡ c + 2 + 2 * k = omega arith in
    rw same (ap (◌∷◌ c) (every_second-suc k (c + 2)))

abbrev pub is_closed : Stage → Bool
is_closed closed = true
is_closed _ = false

-- What is known of a thread at a stage: its buffer has the first `k` of its letters.
unfoldable Known : Thread → Stage → Type 0
Known t outside = Unit {0}
Known t (opened c buf) =
    (k : ℕ) × (buf ≡ every_second k (begins_with t)) × (c ≡ begins_with t + 2 * k) × (k ≤ 13)
Known t closed = Unit {0}

-- What is in the file, by who has closed its stream.
unfoldable pub Holds : List ℕ → Bool → Bool → List ℕ → Type 0
Holds old false false bytes = bytes ≡ old
Holds old true false bytes = bytes ≡ old ++ all_of launched
Holds old false true bytes = bytes ≡ old ++ all_of main
Holds old true true bytes =
    (bytes ≡ (old ++ all_of launched) ++ all_of main)
    ⊎ (bytes ≡ (old ++ all_of main) ++ all_of launched)

record IsKept (old : List ℕ) (s : Shared) : Type 0 where
  known : (t : Thread) → Known t (s.stage t)
  held : Holds old (is_closed (s.stage launched)) (is_closed (s.stage main)) s.bytes

put-all :
    (P : Thread → Stage → Type 0) (t : Thread) (v : Stage) (g : Thread → Stage)
    → P t v
    → ((u : Thread) → P u (g u))
    → (u : Thread) → P u (put t v g u)
put-all P launched v g here all launched = here
put-all P launched v g here all main = all main
put-all P main v g here all launched = all launched
put-all P main v g here all main = here

begins_low : (t : Thread) → b'A' ≤ begins_with t
begins_low launched = omega arith
begins_low main = omega arith

module _ (old : List ℕ) (s : Shared) (h : IsKept old s) where
  -- A thread goes on without closing its stream.
  goes_on :
      (t : Thread) (v : Stage)
      → is_closed (s.stage t) ≡ false
      → is_closed v ≡ false
      → Known t v
      → IsKept old (record s { stage = put t v s.stage })
  goes_on launched v e e' k = record {
    known = put-all Known launched v s.stage k h.known;
    held = subst (λ b. Holds old b (is_closed (s.stage main)) s.bytes) (e ∙ sym e') h.held;
  }
  goes_on main v e e' k = record {
    known = put-all Known main v s.stage k h.known;
    held = subst (λ b. Holds old (is_closed (s.stage launched)) b s.bytes) (e ∙ sym e') h.held;
  }

  -- What a thread closes its stream with.
  closes :
      (t : Thread) (c : ℕ) (buf : List ℕ) → s.stage t ≡ opened c buf → b'Z' < c → buf ≡ all_of t
  unfolding Known
  closes launched c buf e lt =
      let (k, same, at, le) = subst (Known launched) e (h.known launched) in
      let last : k ≡ 13 = omega arith in same ∙ ap (λ n. every_second n (b'A')) last
  closes main c buf e lt =
      let (k, same, at, le) = subst (Known main) e (h.known main) in
      let last : k ≡ 13 = omega arith in same ∙ ap (λ n. every_second n (b'B')) last

  close-launched :
      (b : Bool) → Holds old false b s.bytes → Holds old true b (s.bytes ++ all_of launched)
  unfolding Holds
  close-launched false e = ap (λ x. x ++ all_of launched) e
  close-launched true e = inr (ap (λ x. x ++ all_of launched) e)

  close-main : (b : Bool) → Holds old b false s.bytes → Holds old b true (s.bytes ++ all_of main)
  unfolding Holds
  close-main false e = ap (λ x. x ++ all_of main) e
  close-main true e = inl (ap (λ x. x ++ all_of main) e)

  Step-IsKept : (s' : Shared) → Step s s' → IsKept old s'
  unfolding Known
  Step-IsKept s' (fopen t e) =
      goes_on t (opened (begins_with t) []) (ap is_closed e) refl
        (0, refl, omega arith, omega arith)
  Step-IsKept s' (fprintf t c buf e le) =
      let (k, same, at, le') = subst (Known t) e (h.known t) in
      goes_on t (opened (c + 2) (buf ++ (c ∷ []))) (ap is_closed e) refl (
        suc k,
        rw (same, at) (every_second-suc k (begins_with t)),
        omega arith,
        omega (arith, begins_low t),
      )
  Step-IsKept s' (fclose launched c buf e lt) = record {
    known = put-all Known launched closed s.stage tt h.known;
    held =
        subst (λ x. Holds old true (is_closed (s.stage main)) (s.bytes ++ x))
          (sym (closes launched c buf e lt))
          (close-launched (is_closed (s.stage main))
            (subst (λ b. Holds old b (is_closed (s.stage main)) s.bytes) (ap is_closed e) h.held));
  }
  Step-IsKept s' (fclose main c buf e lt) = record {
    known = put-all Known main closed s.stage tt h.known;
    held =
        subst (λ x. Holds old (is_closed (s.stage launched)) true (s.bytes ++ x))
          (sym (closes main c buf e lt))
          (close-main (is_closed (s.stage launched)) (
            subst (λ b. Holds old (is_closed (s.stage launched)) b s.bytes) (ap is_closed e)
              h.held));
  }

Reach-IsKept : (old : List ℕ) (s : Shared) → Reach old s → IsKept old s
unfolding Known Holds
Reach-IsKept old s begin = record { known = λ t. tt; held = refl }
Reach-IsKept old s' (next {s = s} r step) = Step-IsKept old s (Reach-IsKept old s r) s' step

-- Once both threads have closed their streams, the file holds, behind what it held before, all letters
-- of one thread and then all of the other, however their calls interleave.
pub bytes-closed :
    (old : List ℕ) (s : Shared)
    → Reach old s
    → s.stage launched ≡ closed
    → s.stage main ≡ closed
    → (s.bytes ≡ (old ++ all_of launched) ++ all_of main)
      ⊎ (s.bytes ≡ (old ++ all_of main) ++ all_of launched)
unfolding Holds
bytes-closed old s r first second =
    subst (λ b. Holds old b true s.bytes) (ap is_closed first)
      (subst (λ b. Holds old (is_closed (s.stage launched)) b s.bytes) (ap is_closed second)
        ((Reach-IsKept old s r).held))
