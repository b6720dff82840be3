-- ===== src/Dirwalk/Memory.antt =====
-- The nodes of lab_02/lib/stack.h in memory, and the commands that allocate, read, write and free
-- them. A memory is the history of its writes, the newest first.
use os6_bmstu_iu.Common.{
  ℕ, ◌≡◌, ◌≢◌, Option, none, some, List, [], ◌∷◌, ℤ, ◌==◌, if◌then◌else◌, arith,
}

abbrev pub Ptr : Type 0
Ptr = ℕ

abbrev pub null : Ptr
null = 0

-- What the user of the stack stores: a file name, which is a C string, and a depth.
abbrev pub Elem : Type 0
Elem = List ℕ × ℤ

-- `node_t`
pub record Node : Type 0 where
  pub file_name : List ℕ
  pub depth : ℤ
  pub next : Ptr

abbrev pub node : Elem → Ptr → Node
node (name, depth) q = record { file_name = name; depth = depth; next = q }

abbrev pub Mem : Type 0
Mem = List (Ptr × Option Node)

abbrev pub cell : Ptr → Mem → Option Node
cell p [] = none
cell p ((q, c) ∷ m) = if q == p then c else cell p m

abbrev pub write : Ptr → Option Node → Mem → Mem
write p c m = (p, c) ∷ m

-- A command ends, or faults at a bad access, or its loop runs out of fuel.
pub data Outcome (A : Type 0) : Type 0 where
  ok : A → Mem → Outcome A
  fault : Outcome A
  out_of_fuel : Outcome A

abbrev pub Cmd : Type 0 → Type 0
Cmd A = Mem → Outcome A

abbrev pub pure : {A : Type 0} → A → Cmd A
pure = ok

module _ {A B : Type 0} where
  abbrev pub and_then : Outcome A → (A → Cmd B) → Outcome B
  and_then (ok a m) k = k a m
  and_then fault k = fault
  and_then out_of_fuel k = out_of_fuel

  infixl 5 ◌>>=◌ ◌>>◌
  abbrev pub ◌>>=◌ : Cmd A → (A → Cmd B) → Cmd B
  c >>= k = λ m. and_then (c m) k

  abbrev pub ◌>>◌ : Cmd A → Cmd B → Cmd B
  c >> d = c >>= λ _. d

-- Reads `*p`: a fault at `NULL` and at an address that holds no node.
unfoldable pub load : Ptr → Cmd Node
load p m = if p == null then fault else elim (cell p m) [ none ↦ fault | some n ↦ ok n m ]

-- `p->next = q`
unfoldable pub set_next : Ptr → Ptr → Cmd (Unit {0})
set_next p q = do n ← load p; λ m. ok tt (write p (some (record n { next = q })) m)

-- `free(p)` of a node
unfoldable pub free : Ptr → Cmd (Unit {0})
free p = do _ ← load p; λ m. ok tt (write p none m)

-- What the C library documents of `malloc`, less its failure: a block that is not in use.
abbrev pub Allocates : (Mem → Ptr) → Type 0
Allocates malloc = (m : Mem) → (malloc m ≢ null) × (cell (malloc m) m ≡ none)

module _ (p : Ptr) (n : Node) (m : Mem) (ne : p ≢ null) (holds : cell p m ≡ some n) where
  pub load-ok : load p m ≡ ok n m
  unfolding load
  load-ok = ground arith

  pub set_next-ok : (q : Ptr) → set_next p q m ≡ ok tt (write p (some (record n { next = q })) m)
  unfolding set_next
  set_next-ok q = rw load-ok

  pub free-ok : free p m ≡ ok tt (write p none m)
  unfolding free
  free-ok = rw load-ok
