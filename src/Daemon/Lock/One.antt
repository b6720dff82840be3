-- ===== src/Daemon/Lock/One.antt =====
-- lab_01/main.c: one daemon only, while no daemon has removed the lock file.
use os6_bmstu_iu.Common.{
  some-eq, none-some, ℕ, ◌≡◌, ◌≢◌, refl, ap, sym, ◌∙◌, Option, some, Option-cases, inl, inr, List,
  [], ◌∷◌, update, update-all,
}
use os6_bmstu_iu.Daemon.Lock.{
  Stage, opened, holds, emptied, serving, gone, held, World, opens, Event, opening, locking,
  refusing, truncating, writing, removing, exiting, failing, Step, by_open, by_lock, by_refuse,
  by_truncate, by_write, by_remove, by_exit, by_fail, Reach, begin, then_step,
}
use os6_bmstu_iu.Daemon.Lock.Held.{serving-Reach}

-- The inode that a process has open.
abbrev pub open_of : Stage → Option ℕ
open_of (opened i) = some i
open_of v = held v

-- No daemon has removed the lock file.
unfoldable pub NoRemove : List Event → Type 0
NoRemove [] = Unit {0}
NoRemove (removing ∷ es) = ⊥
NoRemove (_ ∷ es) = NoRemove es

-- Who has a file open has the one of the name.
abbrev IsNamed : World → Type 0
IsNamed w = (p i : ℕ) → open_of (w.stage p) ≡ some i → w.name ≡ some i

module _ (w : World) (h : IsNamed w) (p : ℕ) where
  -- A process goes on with the inode that it has open, or has none any more.
  same-IsNamed :
      (v : Stage)
      → ((i : ℕ) → open_of v ≡ some i → w.name ≡ some i)
      → (q i : ℕ) → open_of (update w.stage p v q) ≡ some i
      → w.name ≡ some i
  same-IsNamed v knows =
      update-all (λ q u. (i : ℕ) → open_of u ≡ some i → w.name ≡ some i) w.stage p v knows
        (λ q other. h q)

  opens-IsNamed : IsNamed (opens w p)
  opens-IsNamed = elim (Option-cases w.name) [
    | inl e ↦ rw e (
        update-all (λ q u. (i : ℕ) → open_of u ≡ some i → some w.next ≡ some i) w.stage p
          (opened w.next) (λ i e'. e') (λ q other i e'. absurd (none-some e (h q i e'))))
    | inr (i, e) ↦ rw e (
        update-all (λ q u. (k : ℕ) → open_of u ≡ some k → some i ≡ some k) w.stage p (opened i)
          (λ k e'. e') (λ q other k e'. sym e ∙ h q k e'))
  ]

  goes_on :
      (u v : Stage)
      → w.stage p ≡ u
      → open_of v ≡ open_of u
      → (i : ℕ) → open_of v ≡ some i
      → w.name ≡ some i
  goes_on u v e same i e' = h p i (ap open_of e ∙ sym same ∙ e')

  Step-IsNamed : (e : Event) (w' : World) → e ≢ removing → Step w p e w' → IsNamed w'
  Step-IsNamed opening w' kept (by_open e) = opens-IsNamed
  Step-IsNamed locking w' kept (by_lock i e free) =
      same-IsNamed (holds i) (goes_on (opened i) (holds i) e refl)
  Step-IsNamed refusing w' kept (by_refuse i q e taken) = same-IsNamed gone (λ j e'. cc)
  Step-IsNamed truncating w' kept (by_truncate i e) =
      same-IsNamed (emptied i) (goes_on (holds i) (emptied i) e refl)
  Step-IsNamed writing w' kept (by_write i e) =
      same-IsNamed (serving i) (goes_on (emptied i) (serving i) e refl)
  Step-IsNamed removing w' kept (by_remove i e) = absurd (kept refl)
  Step-IsNamed exiting w' kept (by_exit i e) = same-IsNamed gone (λ j e'. cc)
  Step-IsNamed failing w' kept (by_fail i e) = same-IsNamed gone (λ j e'. cc)

none_removed : (e : Event) (es : List Event) → NoRemove (e ∷ es) → (e ≢ removing) × NoRemove es
unfolding NoRemove
none_removed opening es h = (λ e. cc, h)
none_removed locking es h = (λ e. cc, h)
none_removed refusing es h = (λ e. cc, h)
none_removed truncating es h = (λ e. cc, h)
none_removed writing es h = (λ e. cc, h)
none_removed removing es h = absurd h
none_removed exiting es h = (λ e. cc, h)
none_removed failing es h = (λ e. cc, h)

Reach-IsNamed :
    (old : Option ℕ) (was : ℕ → List ℕ) (es : List Event) (w : World)
    → NoRemove es
    → Reach old was es w
    → IsNamed w
Reach-IsNamed old was es w kept begin = λ p i e. cc
Reach-IsNamed old was es w kept (then_step {es = es'} {w = w1} p e r s) =
    let (other, rest) = none_removed e es' kept in
    Step-IsNamed w1 (Reach-IsNamed old was es' w1 rest r) p e w other s

-- While no daemon has removed the lock file, two processes that serve are one: the lock keeps the
-- others out, however their calls interleave and whichever of them fail.
pub serving-one :
    (old : Option ℕ) (was : ℕ → List ℕ) (es : List Event) (w : World) (p q i j : ℕ)
    → NoRemove es
    → Reach old was es w
    → w.stage p ≡ serving i
    → w.stage q ≡ serving j
    → p ≡ q
serving-one old was es w p q i j kept r at_p at_q =
    let named : IsNamed w = Reach-IsNamed old was es w kept r in
    let same : i ≡ j = some-eq (sym (named p i (ap open_of at_p)) ∙ named q j (ap open_of at_q)) in
    let (own_p, written_p) = serving-Reach old was es w p i r at_p in
    let (own_q, written_q) = serving-Reach old was es w q j r at_q in
    some-eq (sym own_p ∙ ap w.holder same ∙ own_q)
