-- ===== src/Dirwalk/Stack.antt =====
-- lab_02/lib/stack.c: a stack kept as a singly linked list whose last node is the top. The caller
-- passes `&stk`, so each function takes the value of `stk` and returns the new one. The loops that
-- look for the end of the list run on fuel.
pub mod Chain
pub mod Stacked
pub mod Pop
pub mod Push
use os6_bmstu_iu.Common.{
  ℕ, zero, suc, Bool, true, false, List, ℤ, pos, negsuc, some, ltb, ◌==◌, if◌then◌else◌, length,
}
use os6_bmstu_iu.Dirwalk.Memory.{
  Ptr, null, node, Mem, write, ok, fault, out_of_fuel, Cmd, pure, ◌>>=◌, ◌>>◌, load, set_next, free,
}

-- `MAX_NAME`
abbrev pub max_name : ℕ
max_name = 200

unfoldable pub is_empty : Ptr → Bool
is_empty stack = if stack == null then true else false

-- `while (tmp_head->next != NULL) tmp_head = tmp_head->next;`
last : ℕ → Ptr → Cmd Ptr
last zero tmp_head = λ _. out_of_fuel
last (suc k) tmp_head = do
  n ← load tmp_head
  let rest = last k n.next
  if n.next == null then pure tmp_head else rest

-- `while (tmp_head->next->next != NULL) tmp_head = tmp_head->next;`
before_last : ℕ → Ptr → Cmd Ptr
before_last zero tmp_head = λ _. out_of_fuel
before_last (suc k) tmp_head = do
  n ← load tmp_head
  n' ← load n.next
  let rest = before_last k n.next
  if n'.next == null then pure tmp_head else rest

-- `malloc` gives the address of the next block, or `NULL`.
module _ (malloc : Mem → Ptr) where
  -- `strcpy` into `char fileName[MAX_NAME]` is a fault when the name does not fit.
  unfoldable pub create_node : List ℕ → ℤ → Cmd Ptr
  create_node file_name depth m =
      let tmp_elem = malloc m in
      if tmp_elem == null
      then ok null m
      else if ltb (length file_name) max_name
      then ok tmp_elem (write tmp_elem (some (node (file_name, depth) null)) m)
      else fault

module _ (malloc : Mem → Ptr) (fuel : ℕ) where
  unfoldable pub push : Ptr → Ptr → Cmd (ℤ × Ptr)
  unfolding last
  push stack elem = do
    e ← load elem
    tmp ← create_node malloc e.file_name e.depth
    if tmp == null
        then pure (negsuc 0, stack)
        else if stack == null
        then pure (pos 0, tmp)
        else do tmp_head ← last fuel stack; set_next tmp_head tmp; pure (pos 0, stack)

  -- `pop` of a list with one node
  pop_only : Ptr → Cmd (Ptr × Ptr)
  pop_only stack = do
    n ← load stack
    tmp_node ← create_node malloc n.file_name n.depth
    free stack
    pure (tmp_node, null)

  -- `pop` of a longer list
  pop_last : Ptr → Cmd (Ptr × Ptr)
  pop_last stack = do
    tmp_head ← before_last fuel stack
    n ← load tmp_head
    n' ← load n.next
    tmp_node ← create_node malloc n'.file_name n'.depth
    free n.next
    set_next tmp_head null
    pure (tmp_node, stack)

  -- The new node, and the new value of `stk`.
  unfoldable pub pop : Ptr → Cmd (Ptr × Ptr)
  unfolding pop_only pop_last before_last
  pop stack =
      if stack == null
      then pure (null, stack)
      else do n ← load stack; if n.next == null then pop_only stack else pop_last stack
