-- ===== src/Descriptors.antt =====
-- lab_05/src/app2.c: two descriptors of one file, each with its own offset, read in turn.
pub mod Doubled
mod Tests
use os6_bmstu_iu.Common.{
  ℕ, zero, suc, ◌+◌, ◌≡◌, Bool, true, false, ◌||◌, Option, none, some, List, [], ◌∷◌, ◌++◌, ◌>>=◌,
  length, if◌then◌else◌,
}

-- A descriptor by what is behind its offset; `none` if `open` has failed.
abbrev pub Descriptor : Type 0
Descriptor = Option (List ℕ)

-- `read(fd, &c, 1)`: the byte, if its value is 1, and the descriptor.
abbrev pub read : Descriptor → Option ℕ × Descriptor
read none = (none, none)
read (some []) = (none, some [])
read (some (c ∷ rest)) = (some c, some rest)

abbrev pub written : Option ℕ → List ℕ
written none = []
written (some c) = c ∷ []

abbrev pub is_one : Option ℕ → Bool
is_one none = false
is_one (some c) = true

-- One round of the loop: whether one of the reads has given a byte, the descriptors, and the output.
unfoldable pub round : Descriptor → Descriptor → List ℕ → Bool × Descriptor × Descriptor × List ℕ
round fd1 fd2 out =
    let (rc1, fd1) = read fd1 in
    let (rc2, fd2) = read fd2 in
    (is_one rc1 || is_one rc2, fd1, fd2, (out ++ written rc1) ++ written rc2)

-- The loop, which is entered since `rc2` is 1; `none` when the rounds do not suffice.
unfoldable pub loop : (rounds : ℕ) → Descriptor → Descriptor → List ℕ → Option (List ℕ)
loop zero fd1 fd2 out = none
loop (suc k) fd1 fd2 out =
    let (more, fd1, fd2, out) = round fd1 fd2 out in
    let rest = loop k fd1 fd2 out in if more then rest else some out

-- `main`, where each `open` gives the file or fails.
unfoldable pub main : (rounds : ℕ) → Descriptor → Descriptor → Option (List ℕ)
main rounds fd1 fd2 = loop rounds fd1 fd2 [] >>= λ out. some (out ++ (10 ∷ []))
