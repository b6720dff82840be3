-- ===== src/Daemon/Lock/Held.antt =====
-- lab_01/main.c: who holds the lock, and what is in the file.
use os6_bmstu_iu.Common.{
  some-eq, none-some, ℕ, suc, ◌≤◌, ◌<◌, ◌≡◌, ◌≢◌, refl, ap, sym, ◌∙◌, subst, Option, none, some,
  List, [], ◌∷◌, ◌++◌, Option-cases, inl, inr, arith, print, update, update-same, update-other,
  update-all,
}
use os6_bmstu_iu.Daemon.Lock.{
  Stage, outside, opened, holds, emptied, serving, removed, gone, held, World, opens, Event,
  opening, locking, refusing, truncating, writing, removing, exiting, failing, Step, by_open,
  by_lock, by_refuse, by_truncate, by_write, by_remove, by_exit, by_fail, start, Reach, begin,
  then_step,
}

-- What is known of a process at a stage.
unfoldable pub Known : World → ℕ → Stage → Type 0
Known w p outside = Unit {0}
Known w p (opened i) = i < w.next
Known w p (holds i) = (i < w.next) × (w.holder i ≡ some p)
Known w p (emptied i) = (i < w.next) × (w.holder i ≡ some p)
Known w p (serving i) = (i < w.next) × (w.holder i ≡ some p) × (w.bytes i ≡ print p ++ (0 ∷ []))
Known w p (removed i) = (i < w.next) × (w.holder i ≡ some p)
Known w p gone = Unit {0}

pub record IsGuarded (w : World) : Type 0 where
  pub named : (i : ℕ) → w.name ≡ some i → i < w.next
  pub known : (p : ℕ) → Known w p (w.stage p)

-- What is known of a process stays true while its inode keeps its holder and its bytes.
Known-kept :
    (w w' : World) (q : ℕ) (v : Stage)
    → w.next ≤ w'.next
    → ((j : ℕ)
        → j < w.next
        → w.holder j ≡ some q
        → (w'.holder j ≡ some q) × (w'.bytes j ≡ w.bytes j))
    → Known w q v
    → Known w' q v
unfolding Known
Known-kept w w' q outside le same k = tt
Known-kept w w' q (opened i) le same k = omega arith
Known-kept w w' q (holds i) le same k = (omega (arith, k.0), (same i (k.0) (k.1)).0)
Known-kept w w' q (emptied i) le same k = (omega (arith, k.0), (same i (k.0) (k.1)).0)
Known-kept w w' q (serving i) le same k =
    (omega (arith, k.0), (same i (k.0) (k.1)).0, (same i (k.0) (k.1)).1 ∙ k.2)
Known-kept w w' q (removed i) le same k = (omega (arith, k.0), (same i (k.0) (k.1)).0)
Known-kept w w' q gone le same k = tt

at_same :
    (w : World) (p i j : ℕ)
    → some j ≡ some i
    → (j < w.next) × (w.holder j ≡ some p)
    → (i < w.next) × (w.holder i ≡ some p)
at_same w p i j e k = subst (λ x. (x < w.next) × (w.holder x ≡ some p)) (some-eq e) k

-- A process that holds a lock is its holder.
held-Known :
    (w : World) (p i : ℕ) (v : Stage)
    → held v ≡ some i
    → Known w p v
    → (i < w.next) × (w.holder i ≡ some p)
unfolding Known
held-Known w p i outside e k = cc
held-Known w p i (opened j) e k = cc
held-Known w p i (holds j) e k = at_same w p i j e k
held-Known w p i (emptied j) e k = at_same w p i j e k
held-Known w p i (serving j) e k = at_same w p i j e (k.0, k.1)
held-Known w p i (removed j) e k = at_same w p i j e k
held-Known w p i gone e k = cc

module _ (w : World) (h : IsGuarded w) (p : ℕ) where
  moved : Option ℕ → ℕ → (ℕ → List ℕ) → (ℕ → Option ℕ) → Stage → World
  moved n x b o v = record { name = n; next = x; bytes = b; holder = o; stage = update w.stage p v }

  -- One process moves, and what the others hold stays.
  moved-IsGuarded :
      (n : Option ℕ) (x : ℕ) (b : ℕ → List ℕ) (o : ℕ → Option ℕ) (v : Stage)
      → ((i : ℕ) → n ≡ some i → i < x)
      → w.next ≤ x
      → ((q : ℕ)
          → q ≢ p
          → (j : ℕ) → j < w.next
          → w.holder j ≡ some q
          → (o j ≡ some q) × (b j ≡ w.bytes j))
      → Known (moved n x b o v) p v
      → IsGuarded (moved n x b o v)
  unfolding moved
  moved-IsGuarded n x b o v named le same knows = record {
    named = named;
    known =
        update-all (λ q u. Known (moved n x b o v) q u) w.stage p v knows
          (λ q other. Known-kept w (moved n x b o v) q (w.stage q) le (same q other) (h.known q));
  }

  here : (v : Stage) → w.stage p ≡ v → Known w p v
  here v e = subst (λ u. Known w p u) e (h.known p)

  -- Nobody else holds what this process holds.
  elsewhere : (i j q : ℕ) → w.holder i ≡ some p → q ≢ p → w.holder j ≡ some q → j ≢ i
  elsewhere i j q mine other yours e = other (some-eq (sym yours ∙ ap w.holder e ∙ mine))

  opens-IsGuarded : IsGuarded (opens w p)
  unfolding moved Known
  opens-IsGuarded = elim (Option-cases w.name) [
    | inl e ↦ rw e (
        moved-IsGuarded (some w.next) (suc w.next) (update w.bytes w.next [])
          (update w.holder w.next none) (opened w.next) (λ i e. omega (arith, some-eq e))
          (omega arith)
          (λ q other j lt yours. (
            update-other w.holder w.next j none (λ e. omega arith) ∙ yours,
            update-other w.bytes w.next j [] (λ e. omega arith),
          ))
          (omega arith))
    | inr (i, e) ↦
        let lt : i < w.next = h.named i e in
        rw e (
          moved-IsGuarded (some i) w.next w.bytes w.holder (opened i) (λ k e'. h.named k (e ∙ e'))
            (omega arith) (λ q other j lt yours. (yours, refl)) lt)
  ]

  -- A process ends, and its lock is free.
  released :
      (i : ℕ)
      → w.holder i ≡ some p
      → IsGuarded (moved w.name w.next w.bytes (update w.holder i none) gone)
  unfolding moved Known
  released i own =
      moved-IsGuarded w.name w.next w.bytes (update w.holder i none) gone h.named (omega arith)
        (λ q other j lt yours.
          (update-other w.holder i j none (elsewhere i j q own other yours) ∙ yours, refl))
        tt

  -- Every call of a process keeps what is known of all.
  Step-IsGuarded : (e : Event) (w' : World) → Step w p e w' → IsGuarded w'
  unfolding moved Known
  Step-IsGuarded opening w' (by_open e) = opens-IsGuarded
  Step-IsGuarded locking w' (by_lock i e free) =
      moved-IsGuarded w.name w.next w.bytes (update w.holder i (some p)) (holds i) h.named
        (omega arith)
        (λ q other j lt yours. (
          update-other w.holder i j (some p) (λ same. none-some (ap w.holder same ∙ free) yours)
              ∙ yours,
          refl,
        ))
        (here (opened i) e, update-same w.holder i (some p))
  Step-IsGuarded refusing w' (by_refuse i q e taken) =
      moved-IsGuarded w.name w.next w.bytes w.holder gone h.named (omega arith)
        (λ q other j lt yours. (yours, refl)) tt
  Step-IsGuarded truncating w' (by_truncate i e) =
      let (lt, own) = here (holds i) e in
      moved-IsGuarded w.name w.next (update w.bytes i []) w.holder (emptied i) h.named (omega arith)
        (λ q other j lt' yours.
          (yours, update-other w.bytes i j [] (elsewhere i j q own other yours)))
        (lt, own)
  Step-IsGuarded writing w' (by_write i e) =
      let (lt, own) = here (emptied i) e in
      moved-IsGuarded w.name w.next (update w.bytes i (print p ++ (0 ∷ []))) w.holder (serving i)
        h.named (omega arith)
        (λ q other j lt' yours.
          (yours, update-other w.bytes i j (print p ++ (0 ∷ [])) (elsewhere i j q own other yours)))
        (lt, own, update-same w.bytes i (print p ++ (0 ∷ [])))
  Step-IsGuarded removing w' (by_remove i e) =
      let (lt, own, written) = here (serving i) e in
      moved-IsGuarded none w.next w.bytes w.holder (removed i) (λ j e'. cc) (omega arith)
        (λ q other j lt' yours. (yours, refl)) (lt, own)
  Step-IsGuarded exiting w' (by_exit i e) = released i ((here (removed i) e).1)
  Step-IsGuarded failing w' (by_fail i e) =
      released i ((held-Known w p i (w.stage p) e (h.known p)).1)

start-IsGuarded : (old : Option ℕ) (was : ℕ → List ℕ) → IsGuarded (start old was)
unfolding Known
start-IsGuarded none was = record { named = λ i e. cc; known = λ p. tt }
start-IsGuarded (some j) was = record { named = λ i e. omega (arith, some-eq e); known = λ p. tt }

pub Reach-IsGuarded :
    (old : Option ℕ) (was : ℕ → List ℕ) (es : List Event) (w : World)
    → Reach old was es w
    → IsGuarded w
Reach-IsGuarded old was es w begin = start-IsGuarded old was
Reach-IsGuarded old was es w (then_step {es = es'} {w = w1} p e r s) =
    Step-IsGuarded w1 (Reach-IsGuarded old was es' w1 r) p e w s

-- Whatever the processes that start the daemon do, and in whatever order, one that serves holds the
-- lock on its inode, and the file holds its pid and a zero, since no other process has written to it.
pub serving-Reach :
    (old : Option ℕ) (was : ℕ → List ℕ) (es : List Event) (w : World) (p i : ℕ)
    → Reach old was es w
    → w.stage p ≡ serving i
    → (w.holder i ≡ some p) × (w.bytes i ≡ print p ++ (0 ∷ []))
unfolding Known
serving-Reach old was es w p i r e =
    let (lt, own, written) = here w (Reach-IsGuarded old was es w r) p (serving i) e in
    (own, written)
