-- ===== src/Dirwalk/Stack/Pop.antt =====
-- `pop` of lab_02/lib/stack.c: it copies the last node, frees it and cuts it off the list.
use os6_bmstu_iu.Common.{
  ℕ, zero, suc, ◌<◌, ◌≤◌, ◌≡◌, ◌≢◌, refl, inl, inr, subst, ap, append_assoc, length-append, false,
  none, some, [], ◌∷◌, ◌++◌, ◌==◌, arith, length,
}
use os6_bmstu_iu.Dirwalk.Memory.{
  Ptr, null, Elem, node, Mem, cell, write, Outcome, ok, Allocates, load-ok, set_next-ok, free-ok,
}
use os6_bmstu_iu.Dirwalk.Stack.{max_name, before_last, pop}
use os6_bmstu_iu.Dirwalk.Stack.Chain.{
  Cells, head, Chain, has-append, not_has_of_none, Chain-write, head-append, snoc-cases,
}
use os6_bmstu_iu.Dirwalk.Stack.Push.{create_node-ok}

-- The first of at least two nodes leads to another.
record Leads (m : Mem) (p : Ptr) : Type 0 where
  elem : Elem
  next : Ptr
  ne : p ≢ null
  holds : cell p m ≡ some (node elem next)
  more : next ≢ null

head-Leads :
    (m : Mem) (xs : Cells) (b : Ptr) (f : Elem) (a : Ptr) (e : Elem)
    → Chain m (xs ++ ((b, f) ∷ (a, e) ∷ []))
    → Leads m (head (xs ++ ((b, f) ∷ (a, e) ∷ [])))
head-Leads m [] b f a e c = record { elem = f; next = a; ne = c.0; holds = c.1; more = c.3.0 }
head-Leads m ((p, d) ∷ xs) b f a e c = record {
  elem = d;
  next = head (xs ++ ((b, f) ∷ (a, e) ∷ []));
  ne = c.0;
  holds = c.1;
  more = (head-Leads m xs b f a e c.3).ne;
}

-- The walk ends at the last node but one.
before_last-ok :
    (k : ℕ) (m : Mem) (xs : Cells) (b : Ptr) (f : Elem) (a : Ptr) (e : Elem)
    → Chain m (xs ++ ((b, f) ∷ (a, e) ∷ []))
    → length xs < k
    → before_last k (head (xs ++ ((b, f) ∷ (a, e) ∷ []))) m ≡ ok b m
unfolding before_last
before_last-ok zero m xs b f a e c small = absurd (omega arith)
before_last-ok (suc k) m [] b f a e c small =
    rw (load-ok b (node f a) m c.0 c.1, load-ok a (node e null) m c.3.0 c.3.1)
before_last-ok (suc k) m ((p, d) ∷ xs) b f a e c small =
    let next = head (xs ++ ((b, f) ∷ (a, e) ∷ [])) in
    let at = head-Leads m xs b f a e c.3 in
    let test : (at.next == null) ≡ false = ground (arith, at.more) in
    rw
      (
        load-ok p (node d next) m c.0 c.1,
        load-ok next (node at.elem at.next) m at.ne at.holds,
        test,
      )
      (before_last-ok k m xs b f a e c.3 (omega arith))

-- Cutting the last node off.
Chain-cut :
    (m : Mem) (xs : Cells) (b : Ptr) (f : Elem) (a : Ptr) (e : Elem)
    → Chain m (xs ++ ((b, f) ∷ (a, e) ∷ []))
    → Chain (write b (some (node f null)) (write a none m)) (xs ++ ((b, f) ∷ []))
Chain-cut m [] b f a e c = (c.0, ground arith, refl, tt)
Chain-cut m ((p, d) ∷ xs) b f a e c =
    let apart = has-append p xs ((b, f) ∷ (a, e) ∷ []) in
    let same = has-append p xs ((b, f) ∷ []) in
    (
      c.0,
      ground (arith, apart, head-append xs (b, f) ((a, e) ∷ [])),
      ground (arith, apart, same),
      Chain-cut m xs b f a e c.3,
    )

-- The last two nodes of a list are distinct, and the last one holds `NULL`.
record Ends (m : Mem) (b : Ptr) (f : Elem) (a : Ptr) (e : Elem) : Type 0 where
  ne_b : b ≢ null
  at_b : cell b m ≡ some (node f a)
  ne_a : a ≢ null
  at_a : cell a m ≡ some (node e null)
  apart : (b == a) ≡ false

Chain-Ends :
    (m : Mem) (xs : Cells) (b : Ptr) (f : Elem) (a : Ptr) (e : Elem)
    → Chain m (xs ++ ((b, f) ∷ (a, e) ∷ []))
    → Ends m b f a e
Chain-Ends m [] b f a e c = record {
  ne_b = c.0;
  at_b = c.1;
  ne_a = c.3.0;
  at_a = c.3.1;
  apart = ground arith;
}
Chain-Ends m (x ∷ xs) b f a e c = Chain-Ends m xs b f a e c.3

-- What `pop` leaves of the chain `xs ++ (a, e) ∷ []`: a fresh node with a copy of `e`, the chain
-- `xs`, and the node at `a` freed.
pub record Popped (p : Mem → Outcome (Ptr × Ptr)) (m : Mem) (xs : Cells) (a : Ptr) (e : Elem)
    : Type 0 where
  pub copy : Ptr
  pub after : Mem
  pub run : p m ≡ ok (copy, head xs) after
  pub ne : copy ≢ null
  pub holds : cell copy after ≡ some (node e null)
  pub chain : Chain after xs
  pub freed : cell a after ≡ none

module _ (malloc : Mem → Ptr) (allocates : Allocates malloc) (fuel : ℕ) (m : Mem) (a : Ptr)
    (e : Elem) (fits : length e.0 < max_name) where
  abbrev copied : Mem
  copied = write (malloc m) (some (node e null)) m

  pop-one : Chain m ((a, e) ∷ []) → Popped (pop malloc fuel a) m [] a e
  unfolding pop
  pop-one c =
      let test : (a == null) ≡ false = ground (arith, c.0) in
      let other : (malloc m == a) ≡ false = ground (arith, (allocates m).1) in
      let there : cell a copied ≡ some (node e null) = ground arith in
      record {
        copy = malloc m;
        after = write a none copied;
        run =
            rw (test, load-ok a (node e null) m c.0 c.1)
              (rw (
                load-ok a (node e null) m c.0 c.1,
                create_node-ok malloc allocates e m fits,
                free-ok a (node e null) copied c.0 there,
              ));
        ne = (allocates m).0;
        holds = ground arith;
        chain = tt;
        freed = ground arith;
      }

  pop-more :
      (xs : Cells) (b : Ptr) (f : Elem)
      → Chain m (xs ++ ((b, f) ∷ (a, e) ∷ []))
      → length xs < fuel
      → Popped (pop malloc fuel (head (xs ++ ((b, f) ∷ (a, e) ∷ [])))) m (xs ++ ((b, f) ∷ [])) a e
  unfolding pop
  pop-more xs b f c small =
      let zs = xs ++ ((b, f) ∷ (a, e) ∷ []) in
      let stack = head zs in
      let at = head-Leads m xs b f a e c in
      let ends = Chain-Ends m xs b f a e c in
      let test : (stack == null) ≡ false = ground (arith, at.ne) in
      let more : (at.next == null) ≡ false = ground (arith, at.more) in
      let out = not_has_of_none (malloc m) m zs (allocates m).1 c in
      let apart_a : (malloc m == a) ≡ false = ground (arith, (allocates m).1, ends.at_a) in
      let apart_b : (malloc m == b) ≡ false = ground (arith, (allocates m).1, ends.at_b) in
      let there : cell a copied ≡ some (node e null) = ground (arith, ends.at_a) in
      let here : cell b (write a none copied) ≡ some (node f a) =
        ground (arith, ends.at_b, ends.apart) in
      record {
        copy = malloc m;
        after = write b (some (node f null)) (write a none copied);
        run =
            rw
              (
                test,
                load-ok stack (node at.elem at.next) m at.ne at.holds,
                more,
                before_last-ok fuel m xs b f a e c small,
              )
              (rw (load-ok b (node f a) m ends.ne_b ends.at_b) (
                rw
                  (
                    load-ok a (node e null) m ends.ne_a ends.at_a,
                    create_node-ok malloc allocates e m fits,
                    free-ok a (node e null) copied ends.ne_a there,
                    set_next-ok b (node f a) (write a none copied) ends.ne_b here null,
                  )
                  (rw (head-append xs (b, f) ((a, e) ∷ [])))));
        ne = (allocates m).0;
        holds = ground arith;
        chain =
            Chain-cut copied xs b f a e (Chain-write (malloc m) (some (node e null)) m zs out c);
        freed = ground (arith, ends.apart);
      }

  -- If `malloc` gives a new block, the last name fits a node and the chain is no longer than the
  -- fuel and one more, `pop` returns a fresh copy of the last element, frees its node and cuts it
  -- off.
  pub pop-Chain :
      (xs : Cells)
      → Chain m (xs ++ ((a, e) ∷ []))
      → length xs ≤ fuel
      → Popped (pop malloc fuel (head (xs ++ ((a, e) ∷ [])))) m xs a e
  pop-Chain xs c small = elim (snoc-cases xs) [
    | inl empty ↦ rw empty (pop-one (subst (λ l. Chain m (l ++ ((a, e) ∷ []))) empty c))
    | inr (ys, b, f, split) ↦
        rw (split, append_assoc ys ((b, f) ∷ []) ((a, e) ∷ []))
          (pop-more ys b f
            (subst (Chain m) (append_assoc ys ((b, f) ∷ []) ((a, e) ∷ []))
              (subst (λ l. Chain m (l ++ ((a, e) ∷ []))) split c))
            (omega (arith, ap length split, length-append ys ((b, f) ∷ []))))
  ]
