-- ===== src/Keyboard/Tests.antt =====
-- The theorems on lab_09 at a few events.
use os6_bmstu_iu.Common.{◌≡◌, ◌⊎◌, refl, some, List, [], ◌∷◌, codes, arith, replicate}
use os6_bmstu_iu.Keyboard.Keys.{Keys, pos_max}
use os6_bmstu_iu.Keyboard.Keys.Kept.{pointers}
use os6_bmstu_iu.Keyboard.Tasklet.{Device, loaded, Event, interrupt, softirq, read, run}
use os6_bmstu_iu.Keyboard.Tasklet.Typed.{IsUp, loaded-IsUp, run-IsUp}
use os6_bmstu_iu.Keyboard.Workqueue.{Works, ready, f_work, s_work}
use os6_bmstu_iu.Keyboard.Workqueue.Once.{times, IsOnce}
use os6_bmstu_iu.Keyboard.Workqueue.Served.{named}
use os6_bmstu_iu.Keyboard.Workqueue.Both.{run-both}
use os6_bmstu_iu.Keyboard.Workqueue

-- A full buffer.
abbrev full : Keys
full = record { simbol = pointers (replicate pos_max (codes "A")); pos_simbol = pos_max }

-- Two interrupts before a run of the tasklet give one key.
abbrev events : List Event
events =
    interrupt 1
    ∷ interrupt 1
    ∷ softirq 30
    ∷ softirq 48
    ∷ read
    ∷ interrupt 7
    ∷ interrupt 1
    ∷ softirq 48
    ∷ []

run-IsUp_example :
    (d' : Device) × (run events loaded ≡ some d') × IsUp d' (codes "A" ∷ codes "B" ∷ [])
run-IsUp_example = run-IsUp events loaded [] tt loaded-IsUp (omega arith)

ready-IsOnce : IsOnce ready
ready-IsOnce = record { alive = refl; once = λ w. omega arith }

-- The two works wait in the other order behind these events.
run-both_example :
    (q1 q2 q3 : Works) × (Workqueue.run (Workqueue.interrupt 1 ∷ Workqueue.worker 30 ∷ []) ready
      ≡ some q1)
    × (Workqueue.run (Workqueue.interrupt 1 ∷ []) q1 ≡ some q2)
    × (times f_work q2.waiting ≡ 1)
    × (times s_work q2.waiting ≡ 1)
    × (Workqueue.run (Workqueue.worker 48 ∷ Workqueue.worker 31 ∷ []) q2 ≡ some q3)
    × (q3.waiting ≡ [])
    × ((q3.simbol ≡ named 48 q1.simbol) ⊎ (q3.simbol ≡ named 31 q1.simbol))
run-both_example =
    run-both (Workqueue.interrupt 1 ∷ Workqueue.worker 30 ∷ []) ready 48 31 tt ready-IsOnce refl
