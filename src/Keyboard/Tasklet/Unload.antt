-- ===== src/Keyboard/Tasklet/Unload.antt =====
-- lab_09/part1/main.c: the unload against interrupts.
use os6_bmstu_iu.Common.{◌≡◌, refl, ap, ◌∙◌, false, none, some, List, [], ◌∷◌}
use os6_bmstu_iu.Keyboard.Keys.{Key}
use os6_bmstu_iu.Keyboard.Tasklet.{
  Device, not_started, done, Event, interrupt, softirq, read, unload, my_handler, my_tasklet_exit,
  step, run,
}
use os6_bmstu_iu.Keyboard.Tasklet.Typed.{IsUp}

-- When the unload of an idle module has got to `kfree`, an interrupt of the keyboard, whose handler
-- is still on the line, reads freed memory.
run-freed :
    (d : Device) (ks : List Key)
    → IsUp d ks
    → d.unloading ≡ not_started
    → d.scheduled ≡ false
    → run (unload ∷ unload ∷ unload ∷ interrupt 1 ∷ []) d ≡ none
unfolding run step my_tasklet_exit my_handler
run-freed d ks up begins idle = rw (begins, idle, up.has_handler)

-- A device that its unload has taken down.
abbrev gone : Device → Device
gone d = record d {
  scheduled = false;
  allocated = false;
  registered = false;
  entry = false;
  unloading = done;
}

run-gone : (es : List Event) (d : Device) → run es (gone d) ≡ some (gone d)
unfolding run step my_tasklet_exit
run-gone [] d = refl
run-gone (interrupt irq ∷ es) d = run-gone es d
run-gone (softirq code ∷ es) d = run-gone es d
run-gone (read ∷ es) d = run-gone es d
run-gone (unload ∷ es) d = run-gone es d

exit-gone :
    (d : Device)
    → d.unloading ≡ not_started
    → d.scheduled ≡ false
    → my_tasklet_exit (my_tasklet_exit (my_tasklet_exit (my_tasklet_exit (my_tasklet_exit d))))
      ≡ gone d
unfolding my_tasklet_exit
exit-gone d begins idle = rw (begins, idle)

-- When the tasklet is not scheduled and no event comes in between, the unload gives everything
-- back, and no event after it touches the module.
pub run-unloaded :
    (d : Device) (es : List Event)
    → d.unloading ≡ not_started
    → d.scheduled ≡ false
    → (d' : Device) × (run (unload ∷ unload ∷ unload ∷ unload ∷ unload ∷ es) d ≡ some d')
      × (d'.allocated ≡ false)
      × (d'.registered ≡ false)
      × (d'.entry ≡ false)
unfolding run step
run-unloaded d es begins idle =
    (gone d, ap (run es) (exit-gone d begins idle) ∙ run-gone es d, refl, refl, refl)
