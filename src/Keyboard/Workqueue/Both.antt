-- ===== src/Keyboard/Workqueue/Both.antt =====
-- lab_09/part2/main.c: an interrupt of the keyboard after any others, and the worker that follows.
use os6_bmstu_iu.Common.{
  ℕ, ◌≡◌, ◌⊎◌, refl, ap, ◌∙◌, subst, true, some, List, [], ◌∷◌, arith, ◌>>=◌, inl, inr,
}
use os6_bmstu_iu.Keyboard.Tasklet.{irq_handled}
use os6_bmstu_iu.Keyboard.Workqueue.{
  Work, f_work, s_work, Works, work, Event, interrupt, worker, step, run,
}
use os6_bmstu_iu.Keyboard.Workqueue.Once.{times, IsOnce, handler-IsOnce}
use os6_bmstu_iu.Keyboard.Workqueue.Served.{
  named, Serves, work-Serves, NoUnload, run-IsOnce, step-handled,
}

-- Two works that wait once each are all that waits, in one order or the other.
both_wait :
    (ws : List Work)
    → times f_work ws ≡ 1
    → times s_work ws ≡ 1
    → (ws ≡ f_work ∷ s_work ∷ []) ⊎ (ws ≡ s_work ∷ f_work ∷ [])
both_wait [] f s = cc
both_wait (f_work ∷ []) f s = cc
both_wait (s_work ∷ []) f s = cc
both_wait (f_work ∷ s_work ∷ []) f s = inl refl
both_wait (s_work ∷ f_work ∷ []) f s = inr refl
both_wait (f_work ∷ f_work ∷ ws) f s = absurd (omega arith)
both_wait (s_work ∷ s_work ∷ ws) f s = absurd (omega arith)
both_wait (f_work ∷ s_work ∷ f_work ∷ ws) f s = absurd (omega arith)
both_wait (f_work ∷ s_work ∷ s_work ∷ ws) f s = absurd (omega arith)
both_wait (s_work ∷ f_work ∷ f_work ∷ ws) f s = absurd (omega arith)
both_wait (s_work ∷ f_work ∷ s_work ∷ ws) f s = absurd (omega arith)

-- Two runs of the worker when both works wait.
Done : ℕ → ℕ → Works → Type 0
Done c1 c2 q =
    (q' : Works) × (run (worker c1 ∷ worker c2 ∷ []) q ≡ some q')
    × (q'.waiting ≡ [])
    × ((q'.simbol ≡ named c1 q.simbol) ⊎ (q'.simbol ≡ named c2 q.simbol))

work-Done :
    (c1 c2 : ℕ) (q : Works)
    → (q.waiting ≡ f_work ∷ s_work ∷ []) ⊎ (q.waiting ≡ s_work ∷ f_work ∷ [])
    → Done c1 c2 q
unfolding Done run step Serves
work-Done c1 c2 q (inl e) =
    let q1 = record q { waiting = s_work ∷ []; simbol = named c1 q.simbol } in
    (
      record q1 { waiting = [] },
      ap (λ o. o >>= λ x. work c2 x >>= λ y. some y) (subst (Serves c1 q) e (work-Serves c1 q))
          ∙ ap (λ o. o >>= λ y. some y) (work-Serves c2 q1),
      refl,
      inl refl,
    )
work-Done c1 c2 q (inr e) =
    let q1 = record q { waiting = f_work ∷ [] } in
    (
      record q1 { waiting = []; simbol = named c2 q.simbol },
      ap (λ o. o >>= λ x. work c2 x >>= λ y. some y) (subst (Serves c1 q) e (work-Serves c1 q))
          ∙ ap (λ o. o >>= λ y. some y) (work-Serves c2 q1),
      refl,
      inr refl,
    )

-- From a module that is loaded, with the handler on the line and no work waiting twice, whatever
-- interrupts and worker runs came before: an interrupt of the keyboard leaves both works waiting, each
-- once; two runs of the worker then leave none waiting, and one of the two codes that they see names
-- the last key, if it is below 84.
pub run-both :
    (es : List Event) (q : Works) (c1 c2 : ℕ)
    → NoUnload es
    → IsOnce q
    → q.registered ≡ true
    → (q1 q2 q3 : Works) × (run es q ≡ some q1)
      × (run (interrupt 1 ∷ []) q1 ≡ some q2)
      × (times f_work q2.waiting ≡ 1)
      × (times s_work q2.waiting ≡ 1)
      × (run (worker c1 ∷ worker c2 ∷ []) q2 ≡ some q3)
      × (q3.waiting ≡ [])
      × ((q3.simbol ≡ named c1 q1.simbol) ⊎ (q3.simbol ≡ named c2 q1.simbol))
unfolding run Done
run-both es q c1 c2 none_unload h on =
    let (q1, before, h1, on1) = run-IsOnce es q none_unload h in
    let (q2, handled, h2, same, first, second) = handler-IsOnce q1 h1 in
    let keeps : q2.simbol ≡ q1.simbol = ap (λ x. x.simbol) same in
    let (q3, runs, idle, key) = work-Done c1 c2 q2 (both_wait q2.waiting first second) in
    (
      q1,
      q2,
      q3,
      before,
      ap (λ o. o >>= λ x. some x) (step-handled 1 q1 q2 irq_handled (on1 ∙ on) handled),
      first,
      second,
      runs,
      idle,
      subst (λ k. (q3.simbol ≡ named c1 k) ⊎ (q3.simbol ≡ named c2 k)) keeps key,
    )
