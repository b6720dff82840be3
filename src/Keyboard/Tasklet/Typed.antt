-- ===== src/Keyboard/Tasklet/Typed.antt =====
-- lab_09/part1/main.c: which keys the module keeps of what is typed.
use os6_bmstu_iu.Common.{
  ℕ, ◌+◌, ◌≤◌, ◌<◌, ◌≡◌, refl, ap, ◌∙◌, subst, Bool, true, false, ◌||◌, some, List, [], ◌∷◌, arith,
  ltb, ◌==◌, if◌then◌else◌, length, length-append, get_elem?, ◌>>=◌, Bool-cases, Option-cases, inl,
  inr,
}
use os6_bmstu_iu.Keyboard.Keys.{Key, ascii, pos_max, Keys, my_tasklet_function}
use os6_bmstu_iu.Keyboard.Keys.Kept.{
  Keeps, press, no_keys-Keeps, my_tasklet_function-Keeps, f-Keeps,
}
use os6_bmstu_iu.Keyboard.Tasklet.{
  Device, loaded, Event, interrupt, softirq, read, unload, my_handler, run_tasklet, show, step, run,
}

-- What is kept of a sequence of events, where `pending` says that an interrupt of the keyboard
-- waits for the tasklet: several interrupts before a run of the tasklet give one key.
abbrev pub typed : Bool → List Key → List Event → List Key
typed pending ks [] = ks
typed pending ks (interrupt irq ∷ es) = typed (irq == 1 || pending) ks es
typed pending ks (softirq code ∷ es) =
    if pending then typed false (press code ks) es else typed pending ks es
typed pending ks (read ∷ es) = typed pending ks es
typed pending ks (unload ∷ es) = typed pending ks es

abbrev pub NoUnload : List Event → Type 0
NoUnload [] = Unit {0}
NoUnload (unload ∷ es) = ⊥
NoUnload (e ∷ es) = NoUnload es

-- The module is loaded and keeps the keys `ks`.
pub record IsUp (d : Device) (ks : List Key) : Type 0 where
  pub kept : Keeps d.keys ks
  pub has_tasklet : d.allocated ≡ true
  pub has_handler : d.registered ≡ true
  pub has_entry : d.entry ≡ true

-- A key makes the list at most one longer.
length-press : (code : ℕ) (ks : List Key) → length (press code ks) ≤ length ks + 1
length-press code ks = elim (Bool-cases (ltb code 84)) [
  | inr other ↦ rw other (omega arith)
  | inl known ↦ elim (Bool-cases (ltb (length ks) pos_max)) [
    | inr full ↦ rw (known, full) (omega arith)
    | inl free ↦ elim (Option-cases (get_elem? ascii code)) [
      | inl e ↦ rw (known, free, e) (omega arith)
      | inr (k, e) ↦ rw (known, free, e) (omega (arith, length-append ks (k ∷ [])))
    ]
  ]
]

module _ (d : Device) (ks : List Key) (up : IsUp d ks) where
  step-ours :
      (irq : ℕ) → (irq == 1) ≡ true → step (interrupt irq) d ≡ some (record d { scheduled = true })
  unfolding step my_handler
  step-ours irq ours = rw (up.has_handler, ours, up.has_tasklet)

  step-other : (irq : ℕ) → (irq == 1) ≡ false → step (interrupt irq) d ≡ some d
  unfolding step my_handler
  step-other irq other = rw (up.has_handler, other)

  step-idle : (code : ℕ) → d.scheduled ≡ false → step (softirq code) d ≡ some d
  unfolding step
  step-idle code idle = rw idle

  step-waiting :
      (code : ℕ) (keys : Keys)
      → d.scheduled ≡ true
      → my_tasklet_function code d.keys ≡ some keys
      → step (softirq code) d ≡ some (record d { keys = keys; scheduled = false })
  unfolding step run_tasklet
  step-waiting code keys waiting pressed = rw (waiting, up.has_tasklet, pressed)

  step-read : length ks < pos_max → step read d ≡ some d
  unfolding step show
  step-read few =
      let (y, ys, e, shown) = f-Keeps d.keys ks up.kept few in
      rw (up.has_entry, up.has_tasklet, shown)

  carry-IsUp :
      (keys : Keys) (ls : List Key) (b : Bool)
      → Keeps keys ls
      → IsUp (record d { keys = keys; scheduled = b }) ls
  carry-IsUp keys ls b kept = record {
    kept = kept;
    has_tasklet = up.has_tasklet;
    has_handler = up.has_handler;
    has_entry = up.has_entry;
  }

-- A module that is up, with room for a key per event and with no unload among the events, never
-- leaves its memory, whatever interrupts, runs of the tasklet and reads come in whatever order; it
-- keeps the keys that `typed` says.
pub run-IsUp :
    (es : List Event) (d : Device) (ks : List Key)
    → NoUnload es
    → IsUp d ks
    → length ks + length es < pos_max
    → (d' : Device) × (run es d ≡ some d') × IsUp d' (typed d.scheduled ks es)
unfolding run
run-IsUp [] d ks none_unload up few = (d, refl, up)
run-IsUp (interrupt irq ∷ es) d ks none_unload up few = elim (Bool-cases (irq == 1)) [
  | inl ours ↦
      let (d', done, up') =
        run-IsUp es (record d { scheduled = true }) ks none_unload
          (carry-IsUp d ks up d.keys ks true up.kept) (omega arith) in
      (d', ap (λ o. o >>= run es) (step-ours d ks up irq ours) ∙ done, rw ours up')
  | inr other ↦
      let (d', done, up') = run-IsUp es d ks none_unload up (omega arith) in
      (d', ap (λ o. o >>= run es) (step-other d ks up irq other) ∙ done, rw other up')
]
run-IsUp (softirq code ∷ es) d ks none_unload up few = elim (Bool-cases d.scheduled) [
  | inr idle ↦
      let (d', done, up') = run-IsUp es d ks none_unload up (omega arith) in
      (
        d',
        ap (λ o. o >>= run es) (step-idle d ks up code idle) ∙ done,
        rw idle (subst (λ b. IsUp d' (typed b ks es)) idle up'),
      )
  | inl waiting ↦
      let (keys, pressed, kept) = my_tasklet_function-Keeps code d.keys ks up.kept in
      let (d', done, up') =
        run-IsUp es (record d { keys = keys; scheduled = false }) (press code ks) none_unload
          (carry-IsUp d ks up keys (press code ks) false kept)
          (omega (arith, length-press code ks)) in
      (
        d',
        ap (λ o. o >>= run es) (step-waiting d ks up code keys waiting pressed) ∙ done,
        rw waiting up',
      )
]
run-IsUp (read ∷ es) d ks none_unload up few =
    let (d', done, up') = run-IsUp es d ks none_unload up (omega arith) in
    (d', ap (λ o. o >>= run es) (step-read d ks up (omega arith)) ∙ done, up')
run-IsUp (unload ∷ es) d ks none_unload up few = absurd none_unload

pub loaded-IsUp : IsUp loaded []
loaded-IsUp = record {
  kept = no_keys-Keeps;
  has_tasklet = refl;
  has_handler = refl;
  has_entry = refl;
}
