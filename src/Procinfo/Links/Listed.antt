-- ===== src/Procinfo/Links/Listed.antt =====
-- lab_04/part1/main.c: the lines for the links of a directory, with what each leaves in the buffer.
use os6_bmstu_iu.Common.{
  ℕ, zero, suc, ◌+◌, ◌-◌, ◌<◌, ◌≤◌, ◌≡◌, refl, ap, sym, ◌∙◌, Bool-cases, inl, inr, some, List, [],
  ◌∷◌, ◌++◌, append_assoc, arith, length, length-append, length-drop, length-replicate, lt→ltb,
  take, take-le, drop, drop-replicate, replicate, if◌then◌else◌, c_string, c_string-append, NonZero,
  append-NonZero, drop-NonZero,
}
use os6_bmstu_iu.Procinfo.{buf_size, done, Proc}
use os6_bmstu_iu.Procinfo.Links.{is_dots, readlink, link_line, link_lines}

-- A string in a buffer of `size` bytes, with zeros behind it.
abbrev pub padded : (size : ℕ) → List ℕ → List ℕ
padded size s = s ++ replicate (size - length s) 0

-- What a string becomes when another one is written over its start.
abbrev pub written_over : (new old : List ℕ) → List ℕ
written_over new old = new ++ drop (length new) old

-- The lines: each shows the target with the end of what was shown before, if that was longer.
abbrev pub shown_links : (List ℕ → List ℕ) → (path : List ℕ) → List (List ℕ) → List ℕ → List ℕ
shown_links target path [] before = []
shown_links target path (name ∷ names) before =
    let now = written_over (target (path ++ (b'/' ∷ name))) before in
    let skipped = shown_links target path names before in
    let more = shown_links target path names now in
    if is_dots name then skipped else link_line name now ++ more

-- The paths of the entries fit in their buffer.
abbrev pub AreShort : (path : List ℕ) → List (List ℕ) → Type 0
AreShort path [] = Unit {0}
AreShort path (name ∷ names) = (length (path ++ (b'/' ∷ name)) < buf_size) × AreShort path names

drop-pad :
    (n : ℕ) (s : List ℕ) (z : ℕ)
    → n ≤ length s + z
    → drop n (s ++ replicate z 0) ≡ drop n s ++ replicate (z - (n - length s)) 0
drop-pad zero s z le =
    let same : z ≡ z - (0 - length s) = omega arith in ap (λ k. s ++ replicate k 0) same
drop-pad (suc n) [] z le =
    let split : z ≡ suc n + (z - suc n) = omega arith in
    let left : z - suc n ≡ z - (suc n - 0) = omega arith in
    ap (λ k. drop (suc n) (replicate k 0)) split
    ∙ drop-replicate (suc n) (z - suc n) 0
    ∙ ap (λ k. replicate {A = ℕ} k 0) left
drop-pad (suc n) (x ∷ s) z le =
    let same : z - (n - length s) ≡ z - (suc n - suc (length s)) = omega arith in
    drop-pad n s z (omega arith) ∙ ap (λ k. drop n s ++ replicate k 0) same

over-short :
    (size : ℕ) (new old : List ℕ)
    → length new < size
    → length old < size
    → length (written_over new old) < size
over-short size new old lt lt' =
    omega (arith, length-append new (drop (length new) old), length-drop (length new) old)

readlink-padded :
    (size : ℕ) (new old : List ℕ)
    → length new < size
    → length old < size
    → readlink (some new) (padded size old) ≡ padded size (written_over new old)
unfolding readlink
readlink-padded size new old lt lt' =
    let zeros = size - length old in
    let full : length (padded size old) ≡ size =
      omega (arith, length-append old (replicate zeros 0), length-replicate {A = ℕ} zeros 0) in
    let whole : take (length (padded size old)) new ≡ new = take-le new _ (omega (arith, full)) in
    let left : zeros - (length new - length old) ≡ size - length (written_over new old) =
      omega (arith, length-append new (drop (length new) old), length-drop (length new) old) in
    rw whole (
      ap (λ l. new ++ l) (drop-pad (length new) old zeros (omega arith))
      ∙ sym (append_assoc new (drop (length new) old) _)
      ∙ ap (λ k. written_over new old ++ replicate k 0) left)

c_string-padded :
    (size : ℕ) (s : List ℕ) → length s < size → NonZero s → c_string (padded size s) ≡ some s
c_string-padded size s lt real =
    let more : size - length s ≡ suc (size - length s - 1) = omega arith in
    ap (λ k. c_string (s ++ replicate k 0)) more ∙ c_string-append s _ real

-- If all paths fit, every link can be read and is shorter than a buffer that holds a string and
-- zeros, the loop shows each target with the end of what was shown before it.
pub link_lines-shown :
    (k : Proc) (target : List ℕ → List ℕ) (size : ℕ) (path : List ℕ) (names : List (List ℕ))
    (before : List ℕ)
    → ((p : List ℕ) → k.link p ≡ some (target p))
    → ((name : List ℕ) → length (target (path ++ (b'/' ∷ name))) < size)
    → ((p : List ℕ) → NonZero (target p))
    → AreShort path names
    → length before < size
    → NonZero before
    → link_lines k path names (padded size before) ≡ done (shown_links target path names before)
unfolding link_lines
link_lines-shown k target size path [] before links short real fit lt nz = refl
link_lines-shown k target size path (name ∷ names) before links short real (fits, fit) lt nz =
    elim (Bool-cases (is_dots name)) [
      | inl dots ↦
          rw dots (link_lines-shown k target size path names before links short real fit lt nz)
      | inr other ↦
          let new = target (path ++ (b'/' ∷ name)) in
          let now = written_over new before in
          let lt' = over-short size new before (short name) lt in
          let nz' = append-NonZero new _ (real _) (drop-NonZero (length new) before nz) in
          rw
            (
              other,
              lt→ltb _ _ fits,
              links (path ++ (b'/' ∷ name)),
              readlink-padded size new before (short name) lt,
              c_string-padded size now lt' nz',
              link_lines-shown k target size path names now links short real fit lt' nz',
            )
            refl
    ]
