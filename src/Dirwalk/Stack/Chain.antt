-- ===== src/Dirwalk/Stack/Chain.antt =====
-- The list that a memory holds from a pointer on, and what writes do to it.
use os6_bmstu_iu.Common.{
  ◌≡◌, ◌≢◌, refl, ◌⊎◌, inl, inr, Bool, false, ◌||◌, Option, none, some, List, [], ◌∷◌, ◌++◌, ◌==◌,
  arith,
}
use os6_bmstu_iu.Dirwalk.Memory.{Ptr, null, Elem, Node, node, Mem, cell, write}

-- Addresses with the elements that they hold, from the bottom of the stack to its top.
abbrev pub Cells : Type 0
Cells = List (Ptr × Elem)

abbrev pub head : Cells → Ptr
head [] = null
head ((p, e) ∷ xs) = p

abbrev pub has : Ptr → Cells → Bool
has a [] = false
has a ((p, e) ∷ xs) = (a == p) || has a xs

-- From `head xs` the `next` pointers lead through the distinct nodes `xs` to `NULL`.
abbrev pub Chain : Mem → Cells → Type 0
Chain m [] = Unit {0}
Chain m ((p, e) ∷ xs) =
    (p ≢ null) × (cell p m ≡ some (node e (head xs))) × (has p xs ≡ false) × Chain m xs

pub has-append : (a : Ptr) (xs ys : Cells) → has a (xs ++ ys) ≡ (has a xs || has a ys)
has-append a [] ys = refl
has-append a ((p, e) ∷ xs) ys = ground (arith, has-append a xs ys)

-- An address that is not in use is not in the list.
pub not_has_of_none :
    (a : Ptr) (m : Mem) (xs : Cells) → cell a m ≡ none → Chain m xs → has a xs ≡ false
not_has_of_none a m [] unused c = refl
not_has_of_none a m ((p, e) ∷ xs) unused c = ground (arith, not_has_of_none a m xs unused c.3)

-- A write elsewhere keeps the list.
pub Chain-write :
    (a : Ptr) (c : Option Node) (m : Mem) (xs : Cells)
    → has a xs ≡ false
    → Chain m xs
    → Chain (write a c m) xs
Chain-write a c m [] out h = tt
Chain-write a c m ((p, e) ∷ xs) out h =
    (h.0, ground arith, h.2, Chain-write a c m xs (ground arith) h.3)

pub head-ne-null :
    (m : Mem) (xs : Cells) (z : Ptr × Elem)
    → Chain m (xs ++ (z ∷ []))
    → head (xs ++ (z ∷ [])) ≢ null
head-ne-null m [] z c = c.0
head-ne-null m ((p, e) ∷ xs) z c = c.0

-- The first address does not depend on what follows a node.
pub head-append :
    (xs : Cells) (z : Ptr × Elem) (ys : Cells) → head (xs ++ (z ∷ ys)) ≡ head (xs ++ (z ∷ []))
head-append [] z ys = refl
head-append ((p, e) ∷ xs) z ys = refl

-- The last node of a list holds `NULL`.
pub Chain-last :
    (m : Mem) (xs : Cells) (a : Ptr) (e : Elem)
    → Chain m (xs ++ ((a, e) ∷ []))
    → (a ≢ null) × (cell a m ≡ some (node e null))
Chain-last m [] a e c = (c.0, c.1)
Chain-last m (x ∷ xs) a e c = Chain-last m xs a e c.3

pub snoc-cases :
    (xs : Cells) → (xs ≡ []) ⊎ ((ys : Cells) × (a : Ptr) × (e : Elem) × (xs ≡ ys ++ ((a, e) ∷ [])))
snoc-cases [] = inl refl
snoc-cases ((p, d) ∷ xs) = elim (snoc-cases xs) [
  | inl none_left ↦ inr ([], p, d, rw none_left)
  | inr (ys, a, e, split) ↦ inr ((p, d) ∷ ys, a, e, rw split)
]
