-- ===== src/Keyboard/Tasklet.antt =====
-- lab_09/part1/main.c: the interrupt handler, the tasklet, the reader and the unload, one event
-- after the other. A result of `none` is an access to memory that the module does not own.
pub mod Typed
pub mod Unload
use os6_bmstu_iu.Common.{
  ℕ, suc, ◌+◌, ◌≡◌, Bool, true, false, Option, none, some, List, [], ◌∷◌, ltb, ◌==◌, if◌then◌else◌,
  ◌>>=◌,
}
use os6_bmstu_iu.Keyboard.Keys.{Keys, no_keys, my_tasklet_function, f}

-- How far an unload is, by its last call.
pub data Progress : Type 0 where
  not_started : Progress
  synchronized : Progress
  killed : Progress
  freed : Progress
  unregistered : Progress
  done : Progress

-- The module: the keys, whether the tasklet is scheduled, what the module holds, and how far its
-- unload is.
pub record Device : Type 0 where
  pub keys : Keys
  pub scheduled : Bool
  pub allocated : Bool
  pub registered : Bool
  pub entry : Bool
  pub unloading : Progress

-- The module after a load without errors.
abbrev pub loaded : Device
loaded = record {
  keys = no_keys;
  scheduled = false;
  allocated = true;
  registered = true;
  entry = true;
  unloading = not_started;
}

-- `IRQ_HANDLED` and `IRQ_NONE`
pub data IrqReturn : Type 0 where
  irq_handled : IrqReturn
  irq_none : IrqReturn

-- `my_handler`: it reads the state of the tasklet and schedules it, which does nothing to a tasklet
-- that is scheduled already.
unfoldable pub my_handler : (irq : ℕ) → Device → Option (IrqReturn × Device)
my_handler irq d =
    if irq == 1
    then (if d.allocated then some (irq_handled, record d { scheduled = true }) else none)
    else some (irq_none, d)

-- A run of the scheduled tasklet, which also reads its own state.
unfoldable pub run_tasklet : (code : ℕ) → Device → Option Device
run_tasklet code d =
    if d.allocated
    then (my_tasklet_function code d.keys >>= λ keys.
        some (record d { keys = keys; scheduled = false }))
    else none

-- A read of the entry of /proc, which also reads the count of the tasklet.
unfoldable pub show : Device → Option Device
show d = if d.allocated then (f d.keys >>= λ shown. some d) else none

-- The next call of `my_tasklet_exit`: synchronize_irq, tasklet_kill, which waits for a scheduled
-- tasklet, kfree, free_irq, remove_proc_entry.
unfoldable pub my_tasklet_exit : Device → Device
my_tasklet_exit d = call d.unloading
  where
    call : Progress → Device
    call not_started = record d { unloading = synchronized }
    call synchronized = if d.scheduled then d else record d { unloading = killed }
    call killed = record d { allocated = false; unloading = freed }
    call freed = record d { registered = false; unloading = unregistered }
    call unregistered = record d { entry = false; unloading = done }
    call done = d

-- What may happen: an interrupt on a line, a run of the tasklets with the code that the port then
-- gives, a read, a step of the unload.
pub data Event : Type 0 where
  interrupt : ℕ → Event
  softirq : ℕ → Event
  read : Event
  unload : Event

unfoldable pub step : Event → Device → Option Device
unfolding my_handler run_tasklet show my_tasklet_exit
step (interrupt irq) d = if d.registered then (my_handler irq d >>= λ r. some (r.1)) else some d
step (softirq code) d = if d.scheduled then run_tasklet code d else some d
step read d = if d.entry then show d else some d
step unload d = some (my_tasklet_exit d)

unfoldable pub run : List Event → Device → Option Device
unfolding step
run [] d = some d
run (e ∷ es) d = step e d >>= run es
