-- ===== src/Common/Update.antt =====
-- Functions of a number that change at one number: tables of processes and of files.
use Prim.Native.Nat.{ℕ}
use mathlib.Core.Path.{◌≡◌, refl, sym, ◌∙◌, subst}
use mathlib.Core.Logic.{◌≢◌, inl, inr}
use mathlib.Core.Bool.{true, false}
use os6_bmstu_iu.Common.Tests.{if◌then◌else◌, ◌==◌, ==_iff, ==_refl, ==_ne, Bool-cases}

abbrev pub update {ℓ} : {A : Type ℓ} → (ℕ → A) → ℕ → A → ℕ → A
update f p x q = if q == p then x else f q

pub update-same {ℓ} : {A : Type ℓ} (f : ℕ → A) (p : ℕ) (x : A) → update f p x p ≡ x
update-same f p x = rw (==_refl p) refl

pub update-other {ℓ} : {A : Type ℓ} (f : ℕ → A) (p q : ℕ) (x : A) → q ≢ p → update f p x q ≡ f q
update-other f p q x other = rw (==_ne q p other) refl

true-false : true ≡ false → ⊥
true-false e = cc

-- What holds of the new value and of the old ones elsewhere holds of all.
pub update-all {ℓ ℓ'} :
    {A : Type ℓ} (P : ℕ → A → Type ℓ') (f : ℕ → A) (p : ℕ) (x : A)
    → P p x
    → ((q : ℕ) → q ≢ p → P q (f q))
    → (q : ℕ) → P q (update f p x q)
update-all P f p x here other q = elim (Bool-cases (q == p)) [
  | inl same ↦ rw same (subst (λ r. P r x) (sym ((==_iff q p).0 same)) here)
  | inr apart ↦ rw apart (other q (λ e. true-false (sym ((==_iff q p).1 e) ∙ apart)))
]
