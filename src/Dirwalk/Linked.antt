-- ===== src/Dirwalk/Linked.antt =====
-- The list of lab_02/lib/stack.c keeps the promises that the walk of lab_02/main.c relies on.
pub mod Refused
use os6_bmstu_iu.Common.{
  ℕ, ◌+◌, ◌≤◌, ◌<◌, ◌≡◌, ◌≢◌, refl, ap, subst, ◌∙◌, inl, inr, true, false, Option, none, some, List,
  [], ◌∷◌, ◌++◌, ℤ, length, is_nil, arith, ◌==◌, if◌then◌else◌,
}
use os6_bmstu_iu.Dirwalk.Memory.{
  Ptr, null, Elem, node, Mem, cell, write, Outcome, ok, fault, out_of_fuel, Cmd, pure, ◌>>=◌,
  Allocates, load, load-ok,
}
use os6_bmstu_iu.Dirwalk.Stack.{max_name, is_empty, create_node, push, pop}
use os6_bmstu_iu.Dirwalk.Stack.Chain.{Cells, head, Chain, snoc-cases, not_has_of_none, Chain-write}
use os6_bmstu_iu.Dirwalk.Stack.Push.{create_node-ok, push-Chain}
use os6_bmstu_iu.Dirwalk.Stack.Pop.{pop-Chain}
use os6_bmstu_iu.Dirwalk.Interface.{StackOps}
use os6_bmstu_iu.Dirwalk.Stack.Stacked.{stacked, stacked-append, length-stacked, Fit}

-- The memory and the value of `stk`.
pub record Linked : Type 0 where
  pub mem : Mem
  pub stk : Ptr

abbrev returned : {A : Type 0} → Outcome A → Option (A × Mem)
returned (ok a m) = some (a, m)
returned fault = none
returned out_of_fuel = none

abbrev pub linked : Mem → Ptr → Linked
linked m p = record { mem = m; stk = p }

module _ (malloc : Mem → Ptr) (fuel : ℕ) where
  -- `elem = create_node(name, depth); push(&stk, elem);`
  pub create_push : List ℕ → ℤ → Ptr → Cmd Ptr
  create_push name depth stk = do
    elem ← create_node malloc name depth
    (status, stk) ← push malloc fuel stk elem
    pure stk

  -- `elem = pop(&stk)`, with the fields of `*elem` that the walk reads
  pop_read : Ptr → Cmd (Elem × Ptr)
  pop_read stk = do
    (elem, stk) ← pop malloc fuel stk
    n ← load elem
    pure ((n.file_name, n.depth), stk)

  unfoldable pub push_new : List ℕ → ℤ → Linked → Option Linked
  unfolding create_push
  push_new name depth s = elim (create_push name depth s.stk s.mem) [
    | ok stk m ↦ some (linked m stk)
    | fault ↦ none
    | out_of_fuel ↦ none
  ]

  unfoldable pub pop_elem : Linked → Option (Elem × Linked)
  unfolding pop_read
  pop_elem s = elim (pop_read s.stk s.mem) [
    | ok (e, stk) m ↦ some (e, linked m stk)
    | fault ↦ none
    | out_of_fuel ↦ none
  ]

  -- The list from `stk` on holds `es`, whose top is its last node.
  pub record Holds (s : Linked) (es : List Elem) : Type 0 where
    pub cells : Cells
    pub chain : Chain s.mem cells
    pub first : s.stk ≡ head cells
    pub elems : es ≡ stacked cells []
    pub fit : Fit es
    pub small : length es ≤ fuel

  module _ (s : Linked) (es : List Elem) (h : Holds s es) where
    length-cells : length h.cells ≡ length es
    length-cells = omega (arith, ap length h.elems, length-stacked h.cells [])

    pub is_empty-is_nil : is_empty s.stk ≡ is_nil es
    unfolding is_empty
    is_empty-is_nil = rw h.first (rw h.elems (go h.cells h.chain))
      where
        nonempty : (l : List Elem) → 0 < length l → is_nil l ≡ false
        nonempty [] more = absurd (omega arith)
        nonempty (x ∷ l) more = refl

        go :
            (xs : Cells)
            → Chain s.mem xs
            → (if head xs == null then true else false) ≡ is_nil (stacked xs [])
        go [] c = refl
        go ((p, e) ∷ xs) c =
            ground (arith, nonempty (stacked xs (e ∷ [])), length-stacked xs (e ∷ []))

  module _ (allocates : Allocates malloc) where
    create_push-Chain :
        (name : List ℕ) (d : ℤ) (m : Mem) (xs : Cells)
        → length name < max_name
        → Chain m xs
        → length xs ≤ fuel
        → (a : Ptr) × (m' : Mem) × (create_push name d (head xs) m
            ≡ ok (head (xs ++ ((a, (name, d)) ∷ []))) m')
          × Chain m' (xs ++ ((a, (name, d)) ∷ []))
    unfolding create_push
    create_push-Chain name d m xs fits c small =
        let e : Elem = (name, d) in
        let m1 = write (malloc m) (some (node e null)) m in
        let out = not_has_of_none (malloc m) m xs (allocates m).1 c in
        let c1 = Chain-write (malloc m) (some (node e null)) m xs out c in
        let there : cell (malloc m) m1 ≡ some (node e null) = ground arith in
        let (m', run, c') =
          push-Chain malloc allocates fuel m1 (malloc m) e null (allocates m).0 there fits xs c1
            small in
        (malloc m1, m', rw (create_node-ok malloc allocates e m fits, create_push) (rw run), c')

    pop_read-Chain :
        (m : Mem) (ys : Cells) (a : Ptr) (e : Elem)
        → length (e.0) < max_name
        → Chain m (ys ++ ((a, e) ∷ []))
        → length ys ≤ fuel
        → (m' : Mem) × (pop_read (head (ys ++ ((a, e) ∷ []))) m ≡ ok (e, head ys) m') × Chain m' ys
    unfolding pop_read
    pop_read-Chain m ys a e fits c small =
        let it = pop-Chain malloc allocates fuel m a e fits ys c small in
        (
          it.after,
          rw (it.run, pop_read) (rw (load-ok it.copy (node e null) it.after it.ne it.holds)),
          it.chain,
        )

    pub push_new-Holds :
        (s : Linked) (es : List Elem) (name : List ℕ) (d : ℤ)
        → Holds s es
        → length name < max_name
        → length es < fuel
        → (s' : Linked) × (push_new name d s ≡ some s') × Holds s' ((name, d) ∷ es)
    unfolding push_new
    push_new-Holds s es name d h fits room =
        let (a, m', run, c) =
          create_push-Chain name d s.mem h.cells fits h.chain
            (omega (arith, length-cells s es h)) in
        (
          linked m' (head (h.cells ++ ((a, (name, d)) ∷ []))),
          rw (h.first, run, push_new),
          record {
            cells = h.cells ++ ((a, (name, d)) ∷ []);
            chain = c;
            first = refl;
            elems = rw (stacked-append h.cells a (name, d) []) (ap (◌∷◌ (name, d)) h.elems);
            fit = (fits, h.fit);
            small = omega arith;
          },
        )

    pop_elem-snoc :
        (s : Linked) (e : Elem) (es : List Elem) (ys : Cells) (a : Ptr)
        → s.stk ≡ head (ys ++ ((a, e) ∷ []))
        → Chain s.mem (ys ++ ((a, e) ∷ []))
        → es ≡ stacked ys []
        → Fit (e ∷ es)
        → length (e ∷ es) ≤ fuel
        → (s' : Linked) × (pop_elem s ≡ some (e, s')) × Holds s' es
    unfolding pop_elem
    pop_elem-snoc s e es ys a first c elems fit small =
        let (m', run, c') =
          pop_read-Chain s.mem ys a e fit.0 c
            (omega (arith, ap length elems, length-stacked ys [])) in
        (
          linked m' (head ys),
          rw (first, run, pop_elem),
          record {
            cells = ys;
            chain = c';
            first = refl;
            elems = elems;
            fit = fit.1;
            small = omega arith;
          },
        )

    pub pop_elem-Holds :
        (s : Linked) (e : Elem) (es : List Elem)
        → Holds s (e ∷ es)
        → (s' : Linked) × (pop_elem s ≡ some (e, s')) × Holds s' es
    pop_elem-Holds s e es h = elim (snoc-cases h.cells) [
      | inl empty ↦ absurd (omega (arith, length-cells s (e ∷ es) h, ap length empty))
      | inr (ys, a, f, split) ↦
          let same : e ∷ es ≡ f ∷ stacked ys [] =
            h.elems ∙ ap (λ l. stacked l []) split ∙ stacked-append ys a f [] in
          let top : f ≡ e = cc in
          let whole : h.cells ≡ ys ++ ((a, e) ∷ []) = cc in
          pop_elem-snoc s e es ys a (h.first ∙ ap head whole) (subst (Chain s.mem) whole h.chain)
            (cc) h.fit h.small
    ]

    -- The list as the stack of the walk.
    abbrev pub linked_stack : StackOps
    linked_stack = record {
      State = Linked;
      is_empty = λ s. is_empty s.stk;
      push_new = push_new;
      pop_elem = pop_elem;
      Holds = Holds;
      capacity = fuel;
      is_empty_lem = is_empty-is_nil;
      push_lem = push_new-Holds;
      pop_lem = pop_elem-Holds;
    }
