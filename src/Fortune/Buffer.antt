-- ===== src/Fortune/Buffer.antt =====
-- Kernel buffers as lists of bytes. An access outside of the buffer is `none`.
use Prim.Native.Nat.{min}
use os6_bmstu_iu.Common.{
  ℕ, zero, suc, ◌+◌, ◌-◌, ◌≤◌, ◌<◌, ◌≡◌, refl, ap, Option, none, some, List, [], ◌∷◌, ◌++◌,
  append-nil, arith, ltb, leb, true, le→leb, lt→ltb, if◌then◌else◌, length, set-append,
  length-append, length-take, length-drop, set, length-set, take, drop, replicate, length-replicate,
  drop-append, take-length,
}
unfoldable pub use os6_bmstu_iu.Common.{c_string}
pub use os6_bmstu_iu.Common.{NonZero, c_string-append, take-append, drop-append, take-length}

-- `PAGE_SIZE`
abbrev pub page_size : ℕ
page_size = 4096

-- Bytes written from index `i` on.
unfoldable pub store : ℕ → List ℕ → List ℕ → Option (List ℕ)
store i bs buf =
    if leb (i + length bs) (length buf)
    then some (take i buf ++ (bs ++ drop (i + length bs) buf))
    else none

-- One byte written at index `i`.
unfoldable pub put : ℕ → ℕ → List ℕ → Option (List ℕ)
put i v buf = if ltb i (length buf) then some (set buf i v) else none

-- `copy_from_user(dest, from, n)`, where `uncopied` bytes could not be read: the rest of the block
-- is filled with zeros.
unfoldable pub copied_block : ℕ → List ℕ → List ℕ
copied_block uncopied bs = take (length bs - uncopied) bs ++ replicate (min uncopied (length bs)) 0

drop-add :
    (used free : List ℕ) (i n : ℕ) → i ≡ length used → drop (i + n) (used ++ free) ≡ drop n free
drop-add [] free i n e = ap (λ k. drop k free) (omega arith)
drop-add (x ∷ used) free zero n e = absurd (omega arith)
drop-add (x ∷ used) free (suc i) n e =
    let shift : suc i + n ≡ suc (i + n) = omega arith in
    rw shift (drop-add used free i n (omega arith))

pub copied_block_all : (bs : List ℕ) → copied_block 0 bs ≡ bs
unfolding copied_block
copied_block_all bs =
    let whole : take (length bs - 0) bs ≡ bs = take-length bs (length bs - 0) (omega arith) in
    let rest : min 0 (length bs) ≡ 0 = omega arith in rw (whole, rest) (append-nil bs)

pub length-copied_block :
    (uncopied : ℕ) (bs : List ℕ) → length (copied_block uncopied bs) ≡ length bs
unfolding copied_block
length-copied_block uncopied bs = omega (
  arith,
  length-append (take (length bs - uncopied) bs) (replicate (min uncopied (length bs)) 0),
  length-take (length bs - uncopied) bs,
  length-replicate {A = ℕ} (min uncopied (length bs)) 0,
)

-- A block written between a prefix and the rest.
pub store-append :
    (used bs free : List ℕ) (i : ℕ)
    → i ≡ length used
    → length bs ≤ length free
    → store i bs (used ++ free) ≡ some (used ++ (bs ++ drop (length bs) free))
unfolding store
store-append used bs free i e fits =
    let test : leb (i + length bs) (length (used ++ free)) ≡ true =
      le→leb _ _ (omega (arith, length-append used free)) in
    rw (test, take-append used free i e, drop-add used free i (length bs) e)

pub put-append :
    (xs : List ℕ) (y v : ℕ) (ys : List ℕ) (i : ℕ)
    → i ≡ length xs
    → put i v (xs ++ (y ∷ ys)) ≡ some (xs ++ (v ∷ ys))
unfolding put
put-append xs y v ys i e =
    let test : ltb i (length (xs ++ (y ∷ ys))) ≡ true =
      lt→ltb _ _ (omega (arith, length-append xs (y ∷ ys))) in
    rw (test, set-append xs y v ys i e)

-- A buffer that is longer than `n` has a byte at `n`.
pub drop-cons :
    (xs : List ℕ) (n : ℕ) → n < length xs → (y : ℕ) × (ys : List ℕ) × (drop n xs ≡ y ∷ ys)
drop-cons [] n h = absurd (omega arith)
drop-cons (x ∷ xs) zero h = (x, xs, refl)
drop-cons (x ∷ xs) (suc n) h = drop-cons xs n (omega arith)

-- A write keeps the length of the buffer.
pub length-put : (i v : ℕ) (buf buf' : List ℕ) → put i v buf ≡ some buf' → length buf' ≡ length buf
unfolding put
length-put i v buf buf' e = ground (arith, length-set buf i v)

pub length-store :
    (i : ℕ) (bs buf buf' : List ℕ) → store i bs buf ≡ some buf' → length buf' ≡ length buf
unfolding store
length-store i bs buf buf' e = ground (
  arith,
  length-append (take i buf) (bs ++ drop (i + length bs) buf),
  length-append bs (drop (i + length bs) buf),
  length-take i buf,
  length-drop (i + length bs) buf,
)

pub drop-past : (xs : List ℕ) (n : ℕ) → length xs ≤ n → drop n xs ≡ []
drop-past [] zero h = refl
drop-past [] (suc n) h = refl
drop-past (x ∷ xs) zero h = absurd (omega arith)
drop-past (x ∷ xs) (suc n) h = drop-past xs n (omega arith)
