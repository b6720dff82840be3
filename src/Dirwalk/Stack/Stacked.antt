-- ===== src/Dirwalk/Stack/Stacked.antt =====
-- The elements of the list of lab_02/lib/stack.c as the walk sees them.
use os6_bmstu_iu.Common.{◌+◌, ◌<◌, ◌≡◌, refl, List, [], ◌∷◌, ◌++◌, length, arith}
use os6_bmstu_iu.Dirwalk.Memory.{Ptr, Elem}
use os6_bmstu_iu.Dirwalk.Stack.{max_name}
use os6_bmstu_iu.Dirwalk.Stack.Chain.{Cells}

-- The elements of a list of nodes, the last node first, before those of `acc`.
abbrev pub stacked : Cells → List Elem → List Elem
stacked [] acc = acc
stacked ((p, e) ∷ xs) acc = stacked xs (e ∷ acc)

pub stacked-append :
    (xs : Cells) (p : Ptr) (e : Elem) (acc : List Elem)
    → stacked (xs ++ ((p, e) ∷ [])) acc ≡ e ∷ stacked xs acc
stacked-append [] p e acc = refl
stacked-append ((q, d) ∷ xs) p e acc = stacked-append xs p e (d ∷ acc)

pub length-stacked :
    (xs : Cells) (acc : List Elem) → length (stacked xs acc) ≡ length xs + length acc
length-stacked [] acc = omega arith
length-stacked ((p, e) ∷ xs) acc = omega (arith, length-stacked xs (e ∷ acc))

-- Every name fits a node.
abbrev pub Fit : List Elem → Type 0
Fit [] = Unit {0}
Fit ((name, d) ∷ es) = (length name < max_name) × Fit es
