-- ===== src/Dirwalk/Interface.antt =====
-- What the walk of lab_02/main.c asks of a stack, and what it relies on.
use os6_bmstu_iu.Common.{ℕ, ◌<◌, ◌≡◌, Bool, Option, some, List, ◌∷◌, ℤ, length, is_nil}
use os6_bmstu_iu.Dirwalk.Memory.{Elem}
use os6_bmstu_iu.Dirwalk.Stack.{max_name}

pub record StackOps : Type 1 where
  pub State : Type 0
  pub is_empty : State → Bool
  -- `elem = create_node(name, depth); push(&stk, elem);`
  pub push_new : List ℕ → ℤ → State → Option State
  -- `elem = pop(&stk)`, with `elem->fileName` and `elem->depth`
  pub pop_elem : State → Option (Elem × State)
  -- The elements, the top first.
  pub Holds : State → List Elem → Type 0
  pub capacity : ℕ
  pub is_empty_lem : (s : State) (es : List Elem) → Holds s es → is_empty s ≡ is_nil es
  pub push_lem :
      (s : State) (es : List Elem) (name : List ℕ) (d : ℤ)
      → Holds s es
      → length name < max_name
      → length es < capacity
      → (s' : State) × (push_new name d s ≡ some s') × Holds s' ((name, d) ∷ es)
  pub pop_lem :
      (s : State) (e : Elem) (es : List Elem)
      → Holds s (e ∷ es)
      → (s' : State) × (pop_elem s ≡ some (e, s')) × Holds s' es
