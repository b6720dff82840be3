-- ===== src/Tasks.antt =====
-- lab_03/part1/md.c: a module that logs all tasks, which the kernel keeps in a ring.
pub mod Ring
mod Tests
use os6_bmstu_iu.Common.{
  ℕ, zero, suc, ◌≡◌, Bool, true, false, Option, none, some, List, [], ◌∷◌, ◌++◌, ℤ, ◌>>=◌, ◌==◌,
  if◌then◌else◌,
}

-- What the module reads of a `task_struct`, where tasks are named by their addresses.
pub record Task : Type 0 where
  pub comm : List ℕ
  pub pid : ℕ
  pub state : ℤ
  pub static_prio : ℕ
  pub parent : ℕ
  pub next : ℕ

-- The tasks at their addresses, that of `init_task`, and that of the process that loads the module.
pub record Tasks : Type 0 where
  pub at : ℕ → Task
  pub init_task : ℕ
  pub current : ℕ

-- What is logged: that the module is loaded or unloaded, a task with its parent, and the same for
-- `current`.
pub record Shown : Type 0 where
  pub comm : List ℕ
  pub pid : ℕ
  pub state : ℤ
  pub static_prio : ℕ
  pub parent_comm : List ℕ
  pub parent_pid : ℕ

pub data Entry : Type 0 where
  loaded : Entry
  task : Shown → Entry
  this : Shown → Entry
  unloaded : Entry

-- The arguments of `printk` for a task.
abbrev pub shown : Tasks → ℕ → Shown
shown k a =
    let t = k.at a in
    let p = k.at t.parent in
    record {
      comm = t.comm;
      pid = t.pid;
      state = t.state;
      static_prio = t.static_prio;
      parent_comm = p.comm;
      parent_pid = p.pid;
    }

-- The do-while from `cur_task` on; `none` when the rounds do not suffice.
unfoldable pub walk : (rounds : ℕ) → Tasks → (cur_task : ℕ) → Option (List Entry)
walk zero k cur_task = none
walk (suc n) k cur_task =
    let next = (k.at cur_task).next in
    let rest = walk n k next in
    if next == k.init_task
    then some (task (shown k cur_task) ∷ [])
    else (rest >>= λ entries. some (task (shown k cur_task) ∷ entries))

-- `md_init`: its value is 0, and this is logged.
unfoldable pub md_init : (rounds : ℕ) → Tasks → Option (List Entry)
md_init rounds k = do
  entries ← walk rounds k k.init_task
  some (loaded ∷ (entries ++ (this (shown k k.current) ∷ [])))

-- `md_exit`
abbrev pub md_exit : List Entry
md_exit = unloaded ∷ []
