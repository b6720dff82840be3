-- ===== src/Keyboard/Workqueue/Served.antt =====
-- lab_09/part2/main.c: the worker, whole runs, and the unload against interrupts.
use os6_bmstu_iu.Common.{
  ℕ, ◌≤◌, ◌≡◌, refl, ap, ◌∙◌, true, false, Option, none, some, List, [], ◌∷◌, arith, ltb, ltb→lt,
  ◌==◌, ==_iff, if◌then◌else◌, get_elem?, ◌>>=◌, Bool-cases, inl, inr,
}
use os6_bmstu_iu.Keyboard.Keys.{Key, ascii}
use os6_bmstu_iu.Keyboard.Keys.Kept.{ascii-named}
use os6_bmstu_iu.Keyboard.Tasklet.{IrqReturn, irq_handled, irq_none}
use os6_bmstu_iu.Keyboard.Workqueue.{
  Work, f_work, s_work, is_same, Works, queue_work, handler, queue_function_f, work,
  work_queue_exit, Event, interrupt, worker, unload, step, run,
}
use os6_bmstu_iu.Keyboard.Workqueue.Once.{times, IsOnce, handler-IsOnce}

-- The key that a code names, and otherwise the last one.
abbrev pub named : ℕ → Option Key → Option Key
named code old = if ltb code 84 then get_elem? ascii code else old

queue_function_f-named :
    (code : ℕ) (q : Works)
    → queue_function_f code q ≡ some (record q { simbol = named code q.simbol })
unfolding queue_function_f
queue_function_f-named code q = elim (Bool-cases (ltb code 84)) [
  | inr other ↦ rw other
  | inl known ↦ let (k, name) = ascii-named code (ltb→lt code 84 known) in rw (known, name)
]

times-tail : (w v : Work) (ws : List Work) → times w ws ≤ times w (v ∷ ws)
times-tail w v ws = elim (Bool-cases (is_same w v)) [
  | inl same ↦ rw same (omega arith)
  | inr other ↦ rw other (omega arith)
]

-- What the worker does: nothing, or it takes the first work, which names the key if it is the
-- first of the two.
unfoldable pub Serves : ℕ → Works → List Work → Type 0
Serves code q [] = work code q ≡ some q
Serves code q (f_work ∷ ws) =
    work code q ≡ some (record q { waiting = ws; simbol = named code q.simbol })
Serves code q (s_work ∷ ws) = work code q ≡ some (record q { waiting = ws })

pub work-Serves : (code : ℕ) (q : Works) → Serves code q q.waiting
unfolding work Serves
work-Serves code q = serve q.waiting refl
  where
    serve : (ws : List Work) → q.waiting ≡ ws → Serves code q ws
    serve [] e = rw e
    serve (f_work ∷ ws) e = rw e (queue_function_f-named code (record q { waiting = ws }))
    serve (s_work ∷ ws) e = rw e

work-IsOnce :
    (code : ℕ) (q : Works)
    → IsOnce q
    → (q' : Works) × (work code q ≡ some q') × IsOnce q' × (q'.registered ≡ q.registered)
unfolding Serves
work-IsOnce code q h = serve q.waiting refl (work-Serves code q)
  where
    after :
        (v : Work) (ws : List Work) (key : Option Key)
        → q.waiting ≡ v ∷ ws
        → IsOnce (record q { waiting = ws; simbol = key })
    after v ws key e = record {
      alive = h.alive;
      once = λ w. omega (arith, h.once w, ap (times w) e, times-tail w v ws);
    }

    serve :
        (ws : List Work)
        → q.waiting ≡ ws
        → Serves code q ws
        → (q' : Works) × (work code q ≡ some q') × IsOnce q' × (q'.registered ≡ q.registered)
    serve [] e served = (q, served, h, refl)
    serve (f_work ∷ ws) e served = (_, served, after f_work ws (named code q.simbol) e, refl)
    serve (s_work ∷ ws) e served = (_, served, after s_work ws q.simbol e, refl)

handler-other : (irq : ℕ) (q : Works) → (irq == 1) ≡ false → handler irq q ≡ some (irq_none, q)
unfolding handler
handler-other irq q other = rw other

step-on :
    (irq : ℕ) (q : Works)
    → q.registered ≡ true
    → step (interrupt irq) q ≡ (handler irq q >>= λ p. some (p.1))
unfolding step
step-on irq q e = rw e

pub step-handled :
    (irq : ℕ) (q q' : Works) (r : IrqReturn)
    → q.registered ≡ true
    → handler irq q ≡ some (r, q')
    → step (interrupt irq) q ≡ some q'
step-handled irq q q' r on handled = step-on irq q on ∙ ap (λ o. o >>= λ p. some (p.1)) handled

step-off : (irq : ℕ) (q : Works) → q.registered ≡ false → step (interrupt irq) q ≡ some q
unfolding step
step-off irq q off = rw off

step-IsOnce :
    (irq : ℕ) (q : Works)
    → IsOnce q
    → (q' : Works) × (step (interrupt irq) q ≡ some q') × IsOnce q' × (q'.registered ≡ q.registered)
step-IsOnce irq q h = elim (Bool-cases q.registered) [
  | inr off ↦ (q, step-off irq q off, h, refl)
  | inl on ↦ elim (Bool-cases (irq == 1)) [
    | inr other ↦ (q, step-handled irq q q irq_none on (handler-other irq q other), h, refl)
    | inl ours ↦
        let (q', handled, h', same, first, second) = handler-IsOnce q h in
        let line : irq ≡ 1 = (==_iff irq 1).0 ours in
        (
          q',
          step-handled irq q q' irq_handled on (ap (λ i. handler i q) line ∙ handled),
          h',
          ap (λ x. x.registered) same,
        )
  ]
]

abbrev pub NoUnload : List Event → Type 0
NoUnload [] = Unit {0}
NoUnload (unload ∷ es) = ⊥
NoUnload (e ∷ es) = NoUnload es

-- As long as the module is not unloaded, no sequence of interrupts and worker runs leaves its memory,
-- lets a work wait twice, or takes the handler off the line.
pub run-IsOnce :
    (es : List Event) (q : Works)
    → NoUnload es
    → IsOnce q
    → (q' : Works) × (run es q ≡ some q') × IsOnce q' × (q'.registered ≡ q.registered)
unfolding run step
run-IsOnce [] q none_unload h = (q, refl, h, refl)
run-IsOnce (interrupt irq ∷ es) q none_unload h =
    let (q1, one, h1, on1) = step-IsOnce irq q h in
    let (q', rest, h', on) = run-IsOnce es q1 none_unload h1 in
    (q', ap (λ o. o >>= run es) one ∙ rest, h', on ∙ on1)
run-IsOnce (worker code ∷ es) q none_unload h =
    let (q1, one, h1, on1) = work-IsOnce code q h in
    let (q', rest, h', on) = run-IsOnce es q1 none_unload h1 in
    (q', ap (λ o. o >>= run es) one ∙ rest, h', on ∙ on1)
run-IsOnce (unload ∷ es) q none_unload h = absurd none_unload

-- When the unload of a module with no work waiting has destroyed the queue, an interrupt of the
-- keyboard, whose handler is still on the line, queues a work on the destroyed queue.
pub run-destroyed :
    (q : Works)
    → q.registered ≡ true
    → q.waiting ≡ []
    → q.calls ≡ 0
    → run (unload ∷ unload ∷ interrupt 1 ∷ []) q ≡ none
unfolding run step work_queue_exit handler queue_work
run-destroyed q on idle begins = rw (begins, idle, on)
