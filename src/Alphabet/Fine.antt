-- ===== src/Alphabet/Fine.antt =====
-- lab_05/src/app2_threads.c: what holds between the steps of the two threads.
use os6_bmstu_iu.Common.{
  some-eq, none-some, ℕ, suc, ◌+◌, ◌≤◌, ◌≡◌, ◌≢◌, refl, ap, sym, ◌∙◌, subst, Bool, true, false,
  Option, none, some, List, [], ◌∷◌, ◌++◌, arith, length, take, take-le, take-get, get-none,
  get_elem?,
}
use os6_bmstu_iu.Alphabet.{
  Thread, Stage, outside, locked, sought, got, leaving, stopped, put, System, start, Step, lock,
  lseek, read, write, at_end, unlock, Reach, begin, next,
}
use os6_bmstu_iu.Alphabet.Threads.{put-all, put-same}

abbrev pub bytes : List (Thread × ℕ) → List ℕ
bytes [] = []
bytes (p ∷ ps) = p.1 ∷ bytes ps

bytes-append : (ps qs : List (Thread × ℕ)) → bytes (ps ++ qs) ≡ bytes ps ++ bytes qs
bytes-append [] qs = refl
bytes-append (p ∷ ps) qs = ap (◌∷◌ (p.1)) (bytes-append ps qs)

-- In `outputFile`, between the lock and the unlock.
abbrev pub is_inside : Stage → Bool
is_inside outside = false
is_inside stopped = false
is_inside _ = true

-- What is known while a thread stands at a stage.
unfoldable pub Known : List ℕ → System → Thread → Stage → Type 0
Known file s t outside = Unit {0}
Known file s t stopped = length file ≤ s.file_pos
Known file s t locked = bytes s.out ≡ take s.file_pos file
Known file s t sought = (bytes s.out ≡ take s.file_pos file) × (s.offset t ≡ s.file_pos)
Known file s t (got o) = (bytes s.out ≡ take s.file_pos file) × (o ≡ get_elem? file s.file_pos)
Known file s t (leaving true) = bytes s.out ≡ take (s.file_pos + 1) file
Known file s t (leaving false) = (bytes s.out ≡ take s.file_pos file) × (length file ≤ s.file_pos)

pub record IsFine (file : List ℕ) (s : System) : Type 0 where
  pub owner : (t : Thread) → is_inside (s.stage t) ≡ true → s.mutex ≡ some t
  pub held : (t : Thread) → s.mutex ≡ some t → is_inside (s.stage t) ≡ true
  pub known : (t : Thread) → Known file s t (s.stage t)
  pub idle : s.mutex ≡ none → bytes s.out ≡ take s.file_pos file

-- The other thread is outside while one is inside.
Rests : Stage → Type 0
Rests outside = Unit {0}
Rests stopped = Unit {0}
Rests locked = ⊥
Rests sought = ⊥
Rests (got o) = ⊥
Rests (leaving rc) = ⊥

rests : (v : Stage) → (is_inside v ≡ true → ⊥) → Rests v
unfolding Rests
rests outside h = tt
rests stopped h = tt
rests locked h = h refl
rests sought h = h refl
rests (got o) h = h refl
rests (leaving rc) h = h refl

-- What is known of a thread that rests depends on the position only.
Known-Rests :
    (file : List ℕ) (s s' : System) (u : Thread) (v : Stage)
    → Rests v
    → s.file_pos ≤ s'.file_pos
    → Known file s u v
    → Known file s' u v
unfolding Rests Known
Known-Rests file s s' u outside r le k = tt
Known-Rests file s s' u stopped r le k = omega arith
Known-Rests file s s' u locked r le k = absurd r
Known-Rests file s s' u sought r le k = absurd r
Known-Rests file s s' u (got o) r le k = absurd r
Known-Rests file s s' u (leaving rc) r le k = absurd r

-- One thread moves to another stage, while the other does not own the mutex.
module _ (file : List ℕ) (s : System) (h : IsFine file s) (t : Thread)
    (alone : (u : Thread) → u ≢ t → s.mutex ≡ some u → ⊥) where
  moved : ℕ → List (Thread × ℕ) → Option Thread → Stage → (Thread → ℕ) → System
  moved p o m v f = record { file_pos = p; out = o; mutex = m; stage = put t v s.stage; offset = f }

  moved-IsFine :
      (p : ℕ) (o : List (Thread × ℕ)) (m : Option Thread) (v : Stage) (f : Thread → ℕ)
      → s.file_pos ≤ p
      → (is_inside v ≡ true → m ≡ some t)
      → ((u : Thread) → m ≡ some u → (u ≡ t) × (is_inside v ≡ true))
      → Known file (moved p o m v f) t v
      → (m ≡ none → bytes o ≡ take p file)
      → IsFine file (moved p o m v f)
  unfolding moved
  moved-IsFine p o m v f le mine holds knows idles = record {
    owner =
        put-all (λ u w. is_inside w ≡ true → m ≡ some u) t v s.stage mine
          (λ u other inside. absurd (alone u other (h.owner u inside)));
    held =
        put-all (λ u w. m ≡ some u → is_inside w ≡ true) t v s.stage (λ own. (holds t own).1)
          (λ u other own. absurd (other ((holds u own).0)));
    known =
        put-all (λ u w. Known file (moved p o m v f) u w) t v s.stage knows
          (λ u other.
            Known-Rests file s (moved p o m v f) u (s.stage u)
              (rests (s.stage u) (λ inside. alone u other (h.owner u inside))) le (h.known u));
    idle = idles;
  }

module _ (file : List ℕ) (s : System) (h : IsFine file s) (t : Thread) where
  -- A thread that is inside owns the mutex, so it is alone.
  owns : (v : Stage) → s.stage t ≡ v → is_inside v ≡ true → s.mutex ≡ some t
  owns v e inside = h.owner t (ap is_inside e ∙ inside)

  alone_if : s.mutex ≡ some t → (u : Thread) → u ≢ t → s.mutex ≡ some u → ⊥
  alone_if own u other taken = other (some-eq (sym taken ∙ own))

  here : (v : Stage) → s.stage t ≡ v → Known file s t v
  here v e = subst (λ w. Known file s t w) e (h.known t)

bytes-more :
    (file : List ℕ) (o : List (Thread × ℕ)) (p : ℕ) (t : Thread) (c : ℕ)
    → bytes o ≡ take p file
    → some c ≡ get_elem? file p
    → bytes (o ++ ((t, c) ∷ [])) ≡ take (p + 1) file
bytes-more file o p t c same e =
    let one : p + 1 ≡ suc p = omega arith in
    rw (one, bytes-append o ((t, c) ∷ []), same) (sym (take-get file p c (sym e)))

past-end :
    (file : List ℕ) (o : List (Thread × ℕ)) (p q : ℕ)
    → bytes o ≡ take p file
    → length file ≤ p
    → p ≤ q
    → bytes o ≡ take q file
past-end file o p q same past le = same ∙ take-le file p past ∙ sym (take-le file q (omega arith))

step-IsFine : (file : List ℕ) (s s' : System) → IsFine file s → Step file s s' → IsFine file s'
unfolding Known moved
step-IsFine file s s' h (lock t e free) =
    moved-IsFine file s h t (λ u other taken. none-some free taken) s.file_pos s.out (some t) locked
      s.offset (omega arith) (λ inside. refl) (λ u own. (sym (some-eq own), refl)) (h.idle free)
      (λ not_yet. absurd (none-some not_yet refl))
step-IsFine file s s' h (lseek t e) =
    let own = owns file s h t locked e refl in
    moved-IsFine file s h t (alone_if file s h t own) s.file_pos s.out s.mutex sought
      (put t s.file_pos s.offset) (omega arith) (λ inside. own)
      (λ u same_owner. (some-eq (sym same_owner ∙ own), refl))
      (here file s h t locked e, put-same t s.file_pos s.offset)
      (λ free. absurd (none-some free own))
step-IsFine file s s' h (read t e) =
    let own = owns file s h t sought e refl in
    let (same, at) = here file s h t sought e in
    moved-IsFine file s h t (alone_if file s h t own) s.file_pos s.out s.mutex
      (got (get_elem? file (s.offset t))) (put t (s.offset t + 1) s.offset) (omega arith)
      (λ inside. own) (λ u mine. (some-eq (sym mine ∙ own), refl)) (same, ap (get_elem? file) at)
      (λ free. absurd (none-some free own))
step-IsFine file s s' h (write t c e) =
    let own = owns file s h t (got (some c)) e refl in
    let (same, byte) = here file s h t (got (some c)) e in
    moved-IsFine file s h t (alone_if file s h t own) s.file_pos (s.out ++ ((t, c) ∷ [])) s.mutex
      (leaving true) s.offset (omega arith) (λ inside. own)
      (λ u same_owner. (some-eq (sym same_owner ∙ own), refl))
      (bytes-more file s.out s.file_pos t c same byte) (λ free. absurd (none-some free own))
step-IsFine file s s' h (at_end t e) =
    let own = owns file s h t (got none) e refl in
    let (same, byte) = here file s h t (got none) e in
    moved-IsFine file s h t (alone_if file s h t own) s.file_pos s.out s.mutex (leaving false)
      s.offset (omega arith) (λ inside. own)
      (λ u same_owner. (some-eq (sym same_owner ∙ own), refl))
      (same, get-none file s.file_pos (sym byte)) (λ free. absurd (none-some free own))
step-IsFine file s s' h (unlock t true e) =
    let own = owns file s h t (leaving true) e refl in
    moved-IsFine file s h t (alone_if file s h t own) (s.file_pos + 1) s.out none outside s.offset
      (omega arith) (λ inside. cc) (λ u taken. absurd (none-some refl taken)) tt
      (λ free. here file s h t (leaving true) e)
step-IsFine file s s' h (unlock t false e) =
    let own = owns file s h t (leaving false) e refl in
    let (same, past) = here file s h t (leaving false) e in
    moved-IsFine file s h t (alone_if file s h t own) (s.file_pos + 1) s.out none stopped s.offset
      (omega arith) (λ inside. cc) (λ u taken. absurd (none-some refl taken)) (omega arith)
      (λ free. past-end file s.out s.file_pos (s.file_pos + 1) same past (omega arith))

start-IsFine : (file : List ℕ) → IsFine file start
unfolding Known
start-IsFine file = record {
  owner = λ t inside. cc;
  held = λ t taken. absurd (none-some refl taken);
  known = λ t. tt;
  idle = λ free. refl;
}

pub reach-IsFine : (file : List ℕ) (s : System) → Reach file s → IsFine file s
reach-IsFine file s begin = start-IsFine file
reach-IsFine file s (next {s = s0} past step) =
    step-IsFine file s0 s (reach-IsFine file s0 past) step
