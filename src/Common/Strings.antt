-- ===== src/Common/Strings.antt =====
-- C strings at the front of bytes, and the parts of an append.
use Prim.Native.Nat.{ℕ, zero, suc, ◌+◌, ◌-◌, ◌≤◌, ◌<◌}
use mathlib.Core.Path.{◌≡◌, refl, ap, ◌∙◌}
use mathlib.Core.Logic.{◌≢◌}
use mathlib.Core.Bool.{Bool, true, not, ◌&&◌}
use mathlib.Core.List.{List, [], ◌∷◌, ◌++◌}
use mathlib.Core.Option.{Option, none, some}
use native.Mathlib.Omega.{arith}
use os6_bmstu_iu.Common.Tests.{◌==◌, if◌then◌else◌}
use os6_bmstu_iu.Common.Lists.{length, take, drop, replicate}
use os6_bmstu_iu.Common.Options.{◌>>=◌}

-- The C string at the front of the bytes, if it ends inside of them.
unfoldable pub c_string : List ℕ → Option (List ℕ)
c_string [] = none
c_string (b ∷ bs) = if b == 0 then some [] else (c_string bs >>= λ s. some (b ∷ s))

-- No byte is zero.
abbrev pub NonZero : List ℕ → Type 0
NonZero [] = Unit {0}
NonZero (b ∷ bs) = (b ≢ 0) × NonZero bs

-- A string is read up to its end.
pub c_string-append : (s rest : List ℕ) → NonZero s → c_string (s ++ (0 ∷ rest)) ≡ some s
unfolding c_string
c_string-append [] rest h = refl
c_string-append (b ∷ s) rest h = ground (arith, c_string-append s rest h.1)

pub take-append : (xs ys : List ℕ) (n : ℕ) → n ≡ length xs → take n (xs ++ ys) ≡ xs
take-append [] ys zero e = refl
take-append [] ys (suc n) e = absurd (omega arith)
take-append (x ∷ xs) ys zero e = absurd (omega arith)
take-append (x ∷ xs) ys (suc n) e = ap (◌∷◌ x) (take-append xs ys n (omega arith))

pub drop-append : (xs ys : List ℕ) (n : ℕ) → n ≡ length xs → drop n (xs ++ ys) ≡ ys
drop-append [] ys zero e = refl
drop-append [] ys (suc n) e = absurd (omega arith)
drop-append (x ∷ xs) ys zero e = absurd (omega arith)
drop-append (x ∷ xs) ys (suc n) e = drop-append xs ys n (omega arith)

pub take-length : (bs : List ℕ) (n : ℕ) → n ≡ length bs → take n bs ≡ bs
take-length [] zero e = refl
take-length [] (suc n) e = refl
take-length (b ∷ bs) zero e = absurd (omega arith)
take-length (b ∷ bs) (suc n) e = ap (◌∷◌ b) (take-length bs n (omega arith))

-- A string that does not end is not one.
pub c_string-none : (s : List ℕ) → NonZero s → c_string s ≡ none
unfolding c_string
c_string-none [] h = refl
c_string-none (b ∷ s) h = ground (arith, c_string-none s (h.1))

pub drop-le : (n : ℕ) (xs : List ℕ) → length xs ≤ n → drop n xs ≡ []
drop-le zero [] h = refl
drop-le zero (x ∷ xs) h = absurd (omega arith)
drop-le (suc n) [] h = refl
drop-le (suc n) (x ∷ xs) h = drop-le n xs (omega arith)

pub drop-replicate : (n m a : ℕ) → drop n (replicate (n + m) a) ≡ replicate m a
drop-replicate zero m a = ap (λ k. replicate k a) (omega arith)
drop-replicate (suc n) m a =
    let more : suc n + m ≡ suc (n + m) = omega arith in rw more (drop-replicate n m a)

-- What is left of a buffer of zeros behind something shorter.
pub zeros_behind :
    (size : ℕ) (file : List ℕ)
    → length file < size
    → drop {A = ℕ} (length file) (replicate size 0) ≡ 0 ∷ replicate (size - length file - 1) 0
zeros_behind size file lt =
    let parts : size ≡ length file + suc (size - length file - 1) = omega arith in
    ap (λ s. drop {A = ℕ} (length file) (replicate s 0)) parts
    ∙ drop-replicate (length file) (suc (size - length file - 1)) 0

pub take-NonZero : (n : ℕ) (s : List ℕ) → NonZero s → NonZero (take n s)
take-NonZero zero s h = tt
take-NonZero (suc n) [] h = tt
take-NonZero (suc n) (c ∷ s) h = (h.0, take-NonZero n s (h.1))

pub drop-NonZero : (n : ℕ) (s : List ℕ) → NonZero s → NonZero (drop n s)
drop-NonZero zero s h = h
drop-NonZero (suc n) [] h = tt
drop-NonZero (suc n) (c ∷ s) h = drop-NonZero n s (h.1)

pub append-NonZero : (s t : List ℕ) → NonZero s → NonZero t → NonZero (s ++ t)
append-NonZero [] t hs ht = ht
append-NonZero (c ∷ s) t hs ht = (hs.0, append-NonZero s t (hs.1) ht)

pub drop-append_le : (n : ℕ) (s t : List ℕ) → n ≤ length s → drop n (s ++ t) ≡ drop n s ++ t
drop-append_le zero s t le = refl
drop-append_le (suc n) [] t le = absurd (omega arith)
drop-append_le (suc n) (c ∷ s) t le = drop-append_le n s t (omega arith)

pub length-drop_suc : (n : ℕ) (s rest : List ℕ) → drop n s ≡ 0 ∷ rest → n < length s
length-drop_suc zero [] rest e = cc
length-drop_suc zero (c ∷ s) rest e = omega arith
length-drop_suc (suc n) [] rest e = cc
length-drop_suc (suc n) (c ∷ s) rest e = omega (arith, length-drop_suc n s rest e)

-- The same as a test.
abbrev pub all_nonzero : List ℕ → Bool
all_nonzero [] = true
all_nonzero (c ∷ s) = not (c == 0) && all_nonzero s

pub NonZero-all : (s : List ℕ) → all_nonzero s ≡ true → NonZero s
NonZero-all [] h = tt
NonZero-all (c ∷ s) h = ((λ e. ground arith), NonZero-all s (ground arith))
