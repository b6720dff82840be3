-- ===== src/Dirwalk/Walk/Heard.antt =====
-- lab_02/main.c: what is printed for a tree, in whatever order `readdir` gives the entries.
use mathlib.Core.List.Perm
use mathlib.Core.List.{Perm, perm_append_comm}
use os6_bmstu_iu.Common.{
  ℕ, ◌+◌, ◌≡◌, refl, ap, Bool, not, ◌||◌, List, [], ◌∷◌, ◌++◌, append_assoc, Bool-cases, inl, inr,
  if◌then◌else◌,
}
use os6_bmstu_iu.Dirwalk.Files.{
  Name, Access, Tree, missing, file, dir, Entries, end, entry, here, up,
}
use os6_bmstu_iu.Dirwalk.Walk.{Line, shown, green, cyan, no_opendir, no_chdir, no_readdir}
use os6_bmstu_iu.Dirwalk.Walk.Spec.{around, fails, fails_all, listing, listings}
use os6_bmstu_iu.Dirwalk.Walk.Reordered.{
  SameTree, same_missing, same_file, same_dir, SameEntries, same_end, same_entry, same_here,
  same_up, swap, swap_here, swap_up, back, both,
}

-- The lines without the messages on `readdir`, which depend on all the calls before them.
abbrev pub heard : List Line → List Line
heard [] = []
heard (no_readdir ∷ ls) = heard ls
heard (shown d c n ∷ ls) = shown d c n ∷ heard ls
heard (no_opendir ∷ ls) = no_opendir ∷ heard ls
heard (no_chdir ∷ ls) = no_chdir ∷ heard ls

heard-append : (xs ys : List Line) → heard (xs ++ ys) ≡ heard xs ++ heard ys
heard-append [] ys = refl
heard-append (no_readdir ∷ ls) ys = heard-append ls ys
heard-append (shown d c n ∷ ls) ys = ap (λ l. shown d c n ∷ l) (heard-append ls ys)
heard-append (no_opendir ∷ ls) ys = ap (λ l. no_opendir ∷ l) (heard-append ls ys)
heard-append (no_chdir ∷ ls) ys = ap (λ l. no_chdir ∷ l) (heard-append ls ys)

heard-around :
    (e : Bool) (a : Access) (ls : List Line)
    → heard (around e a ls)
      ≡ (if a.opens then if a.enters then heard ls else no_chdir ∷ [] else no_opendir ∷ [])
heard-around e a ls = elim (Bool-cases a.opens) [
  | inr shut ↦ rw shut
  | inl open_ok ↦ elim (Bool-cases a.enters) [
    | inr barred ↦ rw (open_ok, barred)
    | inl enters ↦ elim (Bool-cases (e || not a.reads)) [
      | inl message ↦ rw (open_ok, enters, message)
      | inr quiet ↦ rw (open_ok, enters, quiet)
    ]
  ]
]

around-Perm :
    (e e' : Bool) (a : Access) (ls ls' : List Line)
    → Perm (heard ls) (heard ls')
    → Perm (heard (around e a ls)) (heard (around e' a ls'))
around-Perm e e' a ls ls' p =
    rw (heard-around e a ls, heard-around e' a ls')
      (elim (Bool-cases a.opens) [
        | inr shut ↦ rw shut (Perm.refl (no_opendir ∷ []))
        | inl open_ok ↦ elim (Bool-cases a.enters) [
          | inr barred ↦ rw (open_ok, barred) (Perm.refl (no_chdir ∷ []))
          | inl enters ↦ rw (open_ok, enters) p
        ]
      ])

mutual
  unfolding listing

  -- What is heard of a tree does not depend on `errno`.
  listing-errno :
      (t : Tree) (e e' : Bool) (d : ℕ) (n : Name)
      → Perm (heard (listing e d n t)) (heard (listing e' d n t))
  listing-errno missing e e' d n = Perm.refl []
  listing-errno (file m) e e' d n = Perm.refl (shown d cyan n ∷ [])
  listing-errno (dir m a es) e e' d n =
      Perm.cons (shown d green n) (around-Perm e e' a _ _ (listings-errno es _ _ (d + 1)))

  listings-errno :
      (es : Entries) (e e' : Bool) (d : ℕ)
      → Perm (heard (listings e d es)) (heard (listings e' d es))
  listings-errno end e e' d = Perm.refl []
  listings-errno (here es) e e' d = listings-errno es e e' d
  listings-errno (up es) e e' d = listings-errno es e e' d
  listings-errno (entry n t es) e e' d =
      rw
        (
          heard-append (listings e d es) (listing (fails_all es e) d n t),
          heard-append (listings e' d es) (listing (fails_all es e') d n t),
        )
        (Perm.append (listings-errno es e e' d) (listing-errno t _ _ d n))

-- Two entries in either order.
swap-Perm :
    (ls a b a' b' : List Line)
    → Perm (heard a) (heard a')
    → Perm (heard b) (heard b')
    → Perm (heard ((ls ++ a) ++ b)) (heard ((ls ++ b') ++ a'))
swap-Perm ls a b a' b' p q =
    rw
      (
        append_assoc ls a b,
        append_assoc ls b' a',
        heard-append ls (a ++ b),
        heard-append ls (b' ++ a'),
        heard-append a b,
        heard-append b' a',
      )
      (Perm.append_left (heard ls)
        (Perm.trans (Perm.append p q) (perm_append_comm (heard a') (heard b'))))

mutual
  unfolding listing fails

  pub listing-SameTree :
      {t t' : Tree}
      → SameTree t t'
      → (e e' : Bool) (d : ℕ) (n : Name)
      → Perm (heard (listing e d n t)) (heard (listing e' d n t'))
  listing-SameTree same_missing e e' d n = Perm.refl []
  listing-SameTree (same_file mode) e e' d n = Perm.refl (shown d cyan n ∷ [])
  listing-SameTree (same_dir mode a h) e e' d n =
      Perm.cons (shown d green n) (around-Perm e e' a _ _ (listings-SameEntries h _ _ (d + 1)))

  listings-SameEntries :
      {es es' : Entries}
      → SameEntries es es'
      → (e e' : Bool) (d : ℕ) → Perm (heard (listings e d es)) (heard (listings e' d es'))
  listings-SameEntries same_end e e' d = Perm.refl []
  listings-SameEntries (same_entry n {t} {t'} {es} {es'} h hs) e e' d =
      rw
        (
          heard-append (listings e d es) (listing (fails_all es e) d n t),
          heard-append (listings e' d es') (listing (fails_all es' e') d n t'),
        )
        (Perm.append (listings-SameEntries hs e e' d) (listing-SameTree h _ _ d n))
  listings-SameEntries (same_here hs) e e' d = listings-SameEntries hs e e' d
  listings-SameEntries (same_up hs) e e' d = listings-SameEntries hs e e' d
  listings-SameEntries (swap n k t u es) e e' d =
      Perm.trans
        (swap-Perm (listings e d es) _ _ _ _
          (listing-errno u (fails_all es e) (fails t (fails_all es e)) d k)
          (listing-errno t (fails u (fails_all es e)) (fails_all es e) d n))
        (listings-errno (entry k u (entry n t es)) e e' d)
  listings-SameEntries (swap_here n t es) e e' d = listings-errno (entry n t es) e e' d
  listings-SameEntries (swap_up n t es) e e' d = listings-errno (entry n t es) e e' d
  listings-SameEntries (back h) e e' d = Perm.symm (listings-SameEntries h e' e d)
  listings-SameEntries (both h k) e e' d =
      Perm.trans (listings-SameEntries h e e' d) (listings-SameEntries k e' e' d)
