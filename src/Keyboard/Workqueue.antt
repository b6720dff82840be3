-- ===== src/Keyboard/Workqueue.antt =====
-- lab_09/part2/main.c: the interrupt handler, the two works and the unload, one event after the
-- other. A result of `none` is an access to memory that the module does not own.
pub mod Once
pub mod Served
pub mod Both
use os6_bmstu_iu.Common.{
  ℕ, zero, suc, ◌+◌, ◌≡◌, Bool, true, false, Option, none, some, List, [], ◌∷◌, ◌++◌, get_elem?,
  ltb, ◌==◌, if◌then◌else◌, ◌>>=◌,
}
use os6_bmstu_iu.Keyboard.Keys.{Key, ascii}
use os6_bmstu_iu.Keyboard.Tasklet.{IrqReturn, irq_handled, irq_none}

-- `fWork` and `sWork`
pub data Work : Type 0 where
  f_work : Work
  s_work : Work

abbrev pub is_same : Work → Work → Bool
is_same f_work f_work = true
is_same s_work s_work = true
is_same _ _ = false

-- The works that wait in `workQueue`, in their order, the last key, whether the queue exists,
-- whether the handler is on the line, and how many calls of the unload have been made.
pub record Works : Type 0 where
  pub waiting : List Work
  pub simbol : Option Key
  pub exists : Bool
  pub registered : Bool
  pub calls : ℕ

-- After a load without errors.
abbrev pub ready : Works
ready = record { waiting = []; simbol = none; exists = true; registered = true; calls = 0 }

abbrev pub waits : Work → List Work → Bool
waits w [] = false
waits w (v ∷ vs) = if is_same w v then true else waits w vs

-- `queue_work`: a work that waits already is not queued again.
unfoldable pub queue_work : Work → Works → Option Works
queue_work w q =
    if q.exists
    then some (if waits w q.waiting then q else record q { waiting = q.waiting ++ (w ∷ []) })
    else none

-- `handler`
unfoldable pub handler : (irq : ℕ) → Works → Option (IrqReturn × Works)
unfolding queue_work
handler irq q =
    if irq == 1
    then (queue_work f_work q >>= λ q1. queue_work s_work q1 >>= λ q2. some (irq_handled, q2))
    else some (irq_none, q)

-- `queue_functionF`, where `code` is what the port gives.
unfoldable pub queue_function_f : (code : ℕ) → Works → Option Works
queue_function_f code q =
    if ltb code 84
    then (get_elem? ascii code >>= λ key. some (record q { simbol = some key }))
    else some q

-- `queue_functionS` only logs.
abbrev pub queue_function_s : Works → Option Works
queue_function_s q = some q

-- The worker takes the first work that waits and runs it.
unfoldable pub work : (code : ℕ) → Works → Option Works
unfolding queue_function_f
work code q = take_first q.waiting
  where
    take_first : List Work → Option Works
    take_first [] = some q
    take_first (f_work ∷ ws) = queue_function_f code (record q { waiting = ws })
    take_first (s_work ∷ ws) = queue_function_s (record q { waiting = ws })

-- The next call of `work_queue_exit`: flush_workqueue, which waits until no work waits,
-- destroy_workqueue, which does so too, and free_irq.
unfoldable pub work_queue_exit : Works → Works
work_queue_exit q = call q.calls q.waiting
  where
    call : ℕ → List Work → Works
    call zero [] = record q { calls = 1 }
    call (suc zero) [] = record q { exists = false; calls = 2 }
    call (suc (suc zero)) ws = record q { registered = false; calls = 3 }
    call _ _ = q

pub data Event : Type 0 where
  interrupt : ℕ → Event
  worker : ℕ → Event
  unload : Event

unfoldable pub step : Event → Works → Option Works
unfolding handler work work_queue_exit
step (interrupt irq) q = if q.registered then (handler irq q >>= λ r. some (r.1)) else some q
step (worker code) q = work code q
step unload q = some (work_queue_exit q)

unfoldable pub run : List Event → Works → Option Works
unfolding step
run [] q = some q
run (e ∷ es) q = step e q >>= run es
