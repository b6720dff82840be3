-- ===== src/Dirwalk/Stack/Push.antt =====
-- `push` of lab_02/lib/stack.c: it appends one node to the list.
use os6_bmstu_iu.Common.{
  ℕ, zero, suc, ◌<◌, ◌≤◌, ◌≡◌, ◌≢◌, refl, inl, inr, subst, append_assoc, length-append, false, some,
  [], ◌∷◌, ◌++◌, pos, ◌==◌, arith, length,
}
use os6_bmstu_iu.Dirwalk.Memory.{
  Ptr, null, Elem, node, Mem, cell, write, ok, Allocates, load-ok, set_next-ok,
}
use os6_bmstu_iu.Dirwalk.Stack.{max_name, last, create_node, push}
use os6_bmstu_iu.Dirwalk.Stack.Chain.{
  Cells, head, has, Chain, has-append, not_has_of_none, head-ne-null, Chain-write, head-append,
  Chain-last, snoc-cases,
}

-- The walk ends at the last node.
last-ok :
    (k : ℕ) (m : Mem) (xs : Cells) (a : Ptr) (e : Elem)
    → Chain m (xs ++ ((a, e) ∷ []))
    → length xs < k
    → last k (head (xs ++ ((a, e) ∷ []))) m ≡ ok a m
unfolding last
last-ok zero m xs a e c small = absurd (omega arith)
last-ok (suc k) m [] a e c small = rw (load-ok a (node e null) m c.0 c.1)
last-ok (suc k) m ((p, d) ∷ xs) a e c small =
    let next = head (xs ++ ((a, e) ∷ [])) in
    let ne : next ≢ null = head-ne-null m xs (a, e) c.3 in
    let test : (next == null) ≡ false = ground arith in
    rw (load-ok p (node d next) m c.0 c.1, test) (last-ok k m xs a e c.3 (omega arith))

-- Linking a new node behind the last one.
Chain-link :
    (m : Mem) (xs : Cells) (a b : Ptr) (e f : Elem)
    → Chain m (xs ++ ((a, e) ∷ []))
    → b ≢ null
    → has b (xs ++ ((a, e) ∷ [])) ≡ false
    → Chain
        (write a (some (node e b)) (write b (some (node f null)) m))
        (xs ++ ((a, e) ∷ (b, f) ∷ []))
Chain-link m [] a b e f c ne out = (c.0, ground arith, ground arith, (ne, ground arith, refl, tt))
Chain-link m ((p, d) ∷ xs) a b e f c ne out =
    let apart = has-append p xs ((a, e) ∷ []) in
    let same = has-append p xs ((a, e) ∷ (b, f) ∷ []) in
    (
      c.0,
      ground (arith, apart, head-append xs (a, e) ((b, f) ∷ [])),
      ground (arith, apart, same),
      Chain-link m xs a b e f c.3 ne (ground arith),
    )

module _ (malloc : Mem → Ptr) (allocates : Allocates malloc) where
  -- With a block and a name that fits, `create_node` fills the block.
  pub create_node-ok :
      (e : Elem) (m : Mem)
      → length e.0 < max_name
      → create_node malloc e.0 e.1 m ≡ ok (malloc m) (write (malloc m) (some (node e null)) m)
  unfolding create_node
  create_node-ok (name, d) m fits = ground (arith, (allocates m).0)

  module _ (fuel : ℕ) (m : Mem) (elem : Ptr) (e : Elem) (q : Ptr) (ne : elem ≢ null)
      (holds : cell elem m ≡ some (node e q)) (fits : length e.0 < max_name) where
    -- The memory with the copy of `elem`.
    abbrev copied : Mem
    copied = write (malloc m) (some (node e null)) m

    test : (malloc m == null) ≡ false
    test = ground (arith, (allocates m).0)

    -- Onto the empty stack: the copy is the only node.
    pub push-nil : push malloc fuel null elem m ≡ ok (pos 0, malloc m) copied
    unfolding push
    push-nil = rw (load-ok elem (node e q) m ne holds, create_node-ok e m fits, test)

    -- Onto other nodes: the copy is linked behind the last one.
    pub push-append :
        (xs : Cells) (a : Ptr) (f : Elem)
        → Chain m (xs ++ ((a, f) ∷ []))
        → length xs < fuel
        → push malloc fuel (head (xs ++ ((a, f) ∷ []))) elem m
          ≡ ok (pos 0, head (xs ++ ((a, f) ∷ []))) (write a (some (node f (malloc m))) copied)
    unfolding push
    push-append xs a f c small =
        let out = not_has_of_none (malloc m) m (xs ++ ((a, f) ∷ [])) (allocates m).1 c in
        let c' = Chain-write (malloc m) (some (node e null)) m _ out c in
        let ends = Chain-last copied xs a f c' in
        let stack = head (xs ++ ((a, f) ∷ [])) in
        let more : (stack == null) ≡ false = ground (arith, head-ne-null m xs (a, f) c) in
        rw
          (
            load-ok elem (node e q) m ne holds,
            create_node-ok e m fits,
            test,
            more,
            last-ok fuel copied xs a f c' small,
          )
          (rw (set_next-ok a (node f null) copied ends.0 ends.1 (malloc m)))

    -- What `push` leaves of the chain `xs`.
    abbrev pub Pushed : Cells → Type 0
    Pushed xs =
        (m' : Mem) × (push malloc fuel (head xs) elem m
          ≡ ok (pos 0, head (xs ++ ((malloc m, e) ∷ []))) m')
        × Chain m' (xs ++ ((malloc m, e) ∷ []))

    push-snoc :
        (ys : Cells) (a : Ptr) (f : Elem)
        → Chain m (ys ++ ((a, f) ∷ []))
        → length (ys ++ ((a, f) ∷ [])) ≤ fuel
        → Pushed (ys ++ ((a, f) ∷ []))
    push-snoc ys a f c small =
        let out = not_has_of_none (malloc m) m (ys ++ ((a, f) ∷ [])) (allocates m).1 c in
        rw
          (
            append_assoc ys ((a, f) ∷ []) ((malloc m, e) ∷ []),
            head-append ys (a, f) ((malloc m, e) ∷ []),
          )
          (
            write a (some (node f (malloc m))) copied,
            push-append ys a f c (omega (arith, length-append ys ((a, f) ∷ []))),
            Chain-link m ys a (malloc m) f e c (allocates m).0 out,
          )

    -- If `malloc` gives a new block, the name of `elem` fits a node and the chain is no longer than
    -- the fuel, `push` returns 0, and the chain has one more node, with a copy of `elem`.
    pub push-Chain : (xs : Cells) → Chain m xs → length xs ≤ fuel → Pushed xs
    push-Chain xs c small = elim (snoc-cases xs) [
      | inl empty ↦ rw empty (copied, push-nil, ((allocates m).0, ground arith, refl, tt))
      | inr (ys, a, f, split) ↦ rw split (
          push-snoc ys a f (subst (λ l. Chain m l) split c)
            (subst (λ l. length l ≤ fuel) split small))
    ]
