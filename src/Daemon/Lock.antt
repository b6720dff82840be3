-- ===== src/Daemon/Lock.antt =====
-- lab_01/main.c: several processes that start the daemon, over one lock file. A step is one call.
pub mod Held
pub mod One
use os6_bmstu_iu.Common.{
  ℕ, suc, ◌+◌, ◌≡◌, Bool, true, false, Option, none, some, List, [], ◌∷◌, ◌++◌, print, update,
}

-- Where a process stands: before `already_running`, behind its `open` of the inode `i`, with the
-- lock, with the file emptied, in the loop of `main`, behind `remove`, or ended.
pub data Stage : Type 0 where
  outside : Stage
  opened : ℕ → Stage
  holds : ℕ → Stage
  emptied : ℕ → Stage
  serving : ℕ → Stage
  removed : ℕ → Stage
  gone : Stage

-- The inode that a process has locked.
abbrev pub held : Stage → Option ℕ
held (holds i) = some i
held (emptied i) = some i
held (serving i) = some i
held (removed i) = some i
held _ = none

-- The inode that the name stands for, the next inode, what is in each, which process holds the lock
-- on each, and where each process stands.
pub record World : Type 0 where
  pub name : Option ℕ
  pub next : ℕ
  pub bytes : ℕ → List ℕ
  pub holder : ℕ → Option ℕ
  pub stage : ℕ → Stage

-- `open(LOCKFILE, O_RDWR | O_CREAT, LOCKMODE)`: a file that is not there is made, and is empty.
abbrev pub opens : World → ℕ → World
opens w p = elim w.name [
  | none ↦ record {
    name = some w.next;
    next = suc w.next;
    bytes = update w.bytes w.next [];
    holder = update w.holder w.next none;
    stage = update w.stage p (opened w.next);
  }
  | some i ↦ record w { stage = update w.stage p (opened i) }
]

-- What the calls of a process do. The lock goes with its process, however that ends.
pub data Event : Type 0 where
  opening : Event
  locking : Event
  refusing : Event
  truncating : Event
  writing : Event
  removing : Event
  exiting : Event
  failing : Event

pub data Step (w : World) (p : ℕ) : Event → World → Type 0 where
  by_open : w.stage p ≡ outside → Step w p opening (opens w p)
  by_lock :
      (i : ℕ)
      → w.stage p ≡ opened i
      → w.holder i ≡ none
      → Step w p locking
          (record w { holder = update w.holder i (some p); stage = update w.stage p (holds i) })
  by_refuse :
      (i q : ℕ)
      → w.stage p ≡ opened i
      → w.holder i ≡ some q
      → Step w p refusing (record w { stage = update w.stage p gone })
  by_truncate :
      (i : ℕ)
      → w.stage p ≡ holds i
      → Step w p truncating
          (record w { bytes = update w.bytes i []; stage = update w.stage p (emptied i) })
  by_write :
      (i : ℕ)
      → w.stage p ≡ emptied i
      → Step w p writing (record w {
        bytes = update w.bytes i (print p ++ (0 ∷ []));
        stage = update w.stage p (serving i);
      })
  by_remove :
      (i : ℕ)
      → w.stage p ≡ serving i
      → Step w p removing (record w { name = none; stage = update w.stage p (removed i) })
  by_exit :
      (i : ℕ)
      → w.stage p ≡ removed i
      → Step w p exiting
          (record w { holder = update w.holder i none; stage = update w.stage p gone })
  by_fail :
      (i : ℕ)
      → held (w.stage p) ≡ some i
      → Step w p failing
          (record w { holder = update w.holder i none; stage = update w.stage p gone })

-- No daemon has been started yet: a lock file may be there from a daemon that failed.
abbrev pub start : Option ℕ → (ℕ → List ℕ) → World
start old was = record {
  name = old;
  next = elim old [ none ↦ 0 | some i ↦ suc i ];
  bytes = was;
  holder = λ i. none;
  stage = λ p. outside;
}

-- The worlds that some steps lead to, with what happened, the last first.
pub data Reach (old : Option ℕ) (was : ℕ → List ℕ) : List Event → World → Type 0 where
  begin : Reach old was [] (start old was)
  then_step :
      {es : List Event} {w w' : World} (p : ℕ) (e : Event)
      → Reach old was es w
      → Step w p e w'
      → Reach old was (e ∷ es) w'
