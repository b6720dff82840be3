-- ===== src/Keyboard/Workqueue/Once.antt =====
-- lab_09/part2/main.c: no work waits twice, and no key is lost once a work waits for it.
use os6_bmstu_iu.Common.{
  ℕ, suc, ◌+◌, ◌≤◌, ◌≡◌, ◌≢◌, refl, ap, ◌∙◌, true, false, some, List, [], ◌∷◌, ◌++◌, arith,
  if◌then◌else◌, Bool-cases, inl, inr,
}
use os6_bmstu_iu.Keyboard.Tasklet.{irq_handled}
use os6_bmstu_iu.Keyboard.Workqueue.{
  Work, f_work, s_work, is_same, waits, Works, queue_work, handler,
}

-- How often a work waits.
abbrev pub times : Work → List Work → ℕ
times w [] = 0
times w (v ∷ vs) = if is_same w v then suc (times w vs) else times w vs

-- The queue exists, and each work waits at most once.
pub record IsOnce (q : Works) : Type 0 where
  pub alive : q.exists ≡ true
  pub once : (w : Work) → times w q.waiting ≤ 1

waits-times : (w : Work) (vs : List Work) → waits w vs ≡ true → 1 ≤ times w vs
waits-times w [] e = cc
waits-times w (v ∷ vs) e = elim (Bool-cases (is_same w v)) [
  | inl same ↦ rw same (omega arith)
  | inr other ↦ rw other (waits-times w vs (rw other at e))
]

contra : true ≢ false
contra e = cc

times-waits : (w : Work) (vs : List Work) → waits w vs ≡ false → times w vs ≡ 0
times-waits w [] e = refl
times-waits w (v ∷ vs) e = elim (Bool-cases (is_same w v)) [
  | inl same ↦ absurd (contra (rw same at e))
  | inr other ↦ rw other (times-waits w vs (rw other at e))
]

times-append : (w : Work) (vs ws : List Work) → times w (vs ++ ws) ≡ times w vs + times w ws
times-append w [] ws = omega arith
times-append w (v ∷ vs) ws = elim (Bool-cases (is_same w v)) [
  | inl same ↦ rw same (omega (arith, times-append w vs ws))
  | inr other ↦ rw other (times-append w vs ws)
]

-- A work that did not wait waits once after it was queued.
times-added :
    (v w : Work) (ws : List Work)
    → times w ws ≡ 0
    → times v ws ≤ 1
    → times v ws + times v (w ∷ []) ≤ 1
times-added f_work f_work ws fresh once = omega arith
times-added f_work s_work ws fresh once = omega arith
times-added s_work f_work ws fresh once = omega arith
times-added s_work s_work ws fresh once = omega arith

times_self : (w : Work) → times w (w ∷ []) ≡ 1
times_self f_work = refl
times_self s_work = refl

-- Queueing keeps what waits, and lets the work wait once.
Queues : Work → Works → Type 0
Queues w q =
    (q' : Works) × (queue_work w q ≡ some q')
    × IsOnce q'
    × (q' ≡ record q { waiting = q'.waiting })
    × (times w q'.waiting ≡ 1)
    × ((v : Work) → times v q.waiting ≤ times v q'.waiting)

queue_work-Queues : (w : Work) (q : Works) → IsOnce q → Queues w q
unfolding queue_work Queues
queue_work-Queues w q h = elim (Bool-cases (waits w q.waiting)) [
  | inl there ↦ (
    q,
    rw (h.alive, there),
    h,
    refl,
    omega (arith, h.once w, waits-times w q.waiting there),
    λ v. omega arith,
  )
  | inr not_there ↦
      let grows : (v : Work)
          → times v (q.waiting ++ (w ∷ [])) ≡ times v q.waiting + times v (w ∷ []) =
        λ v. times-append v q.waiting (w ∷ []) in
      let before : times w q.waiting ≡ 0 = times-waits w q.waiting not_there in
      (
        record q { waiting = q.waiting ++ (w ∷ []) },
        rw (h.alive, not_there),
        record {
          alive = h.alive;
          once = λ v. omega (arith, grows v, times-added v w q.waiting before (h.once v));
        },
        refl,
        omega (arith, grows w, before, times_self w),
        λ v. omega (arith, grows v),
      )
]

-- An interrupt of the keyboard leaves both works waiting, each once.
pub handler-IsOnce :
    (q : Works)
    → IsOnce q
    → (q' : Works) × (handler 1 q ≡ some (irq_handled, q'))
      × IsOnce q'
      × (q' ≡ record q { waiting = q'.waiting })
      × (times f_work q'.waiting ≡ 1)
      × (times s_work q'.waiting ≡ 1)
unfolding handler Queues
handler-IsOnce q h =
    let (q1, first, h1, kept, one, keeps) = queue_work-Queues f_work q h in
    let (q2, second, h2, kept2, two, keeps2) = queue_work-Queues s_work q1 h1 in
    (
      q2,
      rw (first, second),
      h2,
      kept2 ∙ ap (λ (x : Works). record x { waiting = q2.waiting }) kept,
      omega (arith, keeps2 f_work, h2.once f_work),
      two,
    )
