-- ===== src/Daemon/Process/Closed.antt =====
-- lab_01/main.c: what the loop of daemonize that closes the descriptors leaves of the table.
use os6_bmstu_iu.Common.{
  some-eq, ℕ, zero, suc, ◌+◌, ◌≤◌, ◌<◌, ◌≡◌, ◌≢◌, ◌⊎◌, inl, inr, refl, ◌∙◌, subst, none, some, [],
  ◌∷◌, arith, set, length, length-set, get_elem?, get-set_same, get-set_other, ◌==◌, Bool-cases,
  ==_iff,
}
use os6_bmstu_iu.Daemon.Process.{Table, close, close_from}

length-close_from : (n i : ℕ) (fds : Table) → length (close_from n i fds) ≡ length fds
unfolding close_from
length-close_from zero i fds = refl
length-close_from (suc n) i fds = length-close_from n (i + 1) (close i fds) ∙ length-set fds i none

-- Descriptors that the loop does not come to stay as they are.
pub close_from-outside :
    (n i j : ℕ) (fds : Table)
    → (j < i) ⊎ (i + n ≤ j)
    → get_elem? (close_from n i fds) j ≡ get_elem? fds j
unfolding close_from
close_from-outside zero i j fds away = refl
close_from-outside (suc n) i j fds away =
    close_from-outside n (i + 1) j (close i fds) (further away)
    ∙ get-set_other fds i j none (apart away)
  where
    further : (j < i) ⊎ (i + suc n ≤ j) → (j < i + 1) ⊎ (i + 1 + n ≤ j)
    further (inl lt) = inl (omega arith)
    further (inr le) = inr (omega arith)

    apart : (j < i) ⊎ (i + suc n ≤ j) → i ≢ j
    apart (inl lt) e = omega arith
    apart (inr le) e = omega arith

-- Those that it comes to are closed.
pub close_from-inside :
    (n i j : ℕ) (fds : Table)
    → i ≤ j
    → j < i + n
    → j < length fds
    → get_elem? (close_from n i fds) j ≡ some none
unfolding close_from
close_from-inside zero i j fds le lt there = absurd (omega arith)
close_from-inside (suc n) i j fds le lt there = elim (Bool-cases (i == j)) [
  | inl same ↦
      let e : i ≡ j = (==_iff i j).0 same in
      close_from-outside n (i + 1) j (close i fds) (inl (omega arith))
      ∙ subst (λ k. get_elem? (set fds i none) k ≡ some none) e
          (get-set_same fds i none (omega arith))
  | inr other ↦
      close_from-inside n (i + 1) j (close i fds) (ground (arith, other)) (omega arith)
        (omega (arith, length-set fds i none))
]

-- Three free descriptors at the front.
pub three_free :
    (t : Table)
    → get_elem? t 0 ≡ some none
    → get_elem? t 1 ≡ some none
    → get_elem? t 2 ≡ some none
    → (rest : Table) × (t ≡ none ∷ none ∷ none ∷ rest)
three_free [] e0 e1 e2 = cc
three_free (a ∷ []) e0 e1 e2 = cc
three_free (a ∷ b ∷ []) e0 e1 e2 = cc
three_free (a ∷ b ∷ c ∷ rest) e0 e1 e2 = (rest, rw (some-eq e0, some-eq e1, some-eq e2))
