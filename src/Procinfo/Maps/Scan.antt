-- ===== src/Procinfo/Maps/Scan.antt =====
-- lab_04/part1/lib/output_funcs.c: where the loops over the buffer stop.
use os6_bmstu_iu.Common.{
  none-some, ℕ, zero, suc, ◌+◌, ◌-◌, ◌*◌, ◌%◌, ◌<◌, ◌≡◌, ◌≢◌, refl, ap, sym, ◌∙◌, false, none, some,
  List, [], ◌∷◌, ◌++◌, arith, length, length-append, length-drop, drop, set, replicate, get_elem?,
  ◌==◌, ==_ne, ==_refl, if◌then◌else◌,
}
use os6_bmstu_iu.Procinfo.{done, ◌>>=◌, lf}
use os6_bmstu_iu.Procinfo.Maps.{at, word, back, line_start, until, over, digit, hex}

-- A position in the buffer, by what stands from there on.
pub drop-suc : (x c : ℕ) (buf rest : List ℕ) → drop x buf ≡ c ∷ rest → drop (suc x) buf ≡ rest
drop-suc zero c [] rest e = cc
drop-suc zero c (b ∷ buf) rest e = cc
drop-suc (suc x) c [] rest e = cc
drop-suc (suc x) c (b ∷ buf) rest e = drop-suc x c buf rest e

pub get-drop : (x c : ℕ) (buf rest : List ℕ) → drop x buf ≡ c ∷ rest → get_elem? buf x ≡ some c
get-drop zero c [] rest e = cc
get-drop zero c (b ∷ buf) rest e = cc
get-drop (suc x) c [] rest e = cc
get-drop (suc x) c (b ∷ buf) rest e = get-drop x c buf rest e

pub drop-plus :
    (x : ℕ) (buf s rest : List ℕ) → drop x buf ≡ s ++ rest → drop (x + length s) buf ≡ rest
drop-plus x buf [] rest e = ap (λ k. drop k buf) (omega arith) ∙ e
drop-plus x buf (c ∷ s) rest e =
    let further : x + suc (length s) ≡ suc x + length s = omega arith in
    rw further (drop-plus (suc x) buf s rest (drop-suc x c buf (s ++ rest) e))

-- No byte of a text is `c`.
abbrev pub Without : ℕ → List ℕ → Type 0
Without c [] = Unit {0}
Without c (d ∷ s) = (d ≢ c) × Without c s

pub until-found :
    (n c x : ℕ) (buf s rest : List ℕ)
    → length s < n
    → drop x buf ≡ s ++ (c ∷ rest)
    → Without c s
    → until n c buf x ≡ done (x + length s)
unfolding until
until-found zero c x buf s rest lt e free = absurd (omega arith)
until-found (suc n) c x buf [] rest lt e free =
    let here : get_elem? buf x ≡ some c = get-drop x c buf rest e in
    let same : x ≡ x + 0 = omega arith in rw (here, ==_refl c) (ap done same)
until-found (suc n) c x buf (d ∷ s) rest lt e free =
    let here : get_elem? buf x ≡ some d = get-drop x d buf (s ++ (c ∷ rest)) e in
    let further : x + suc (length s) ≡ suc x + length s = omega arith in
    rw (here, ==_ne d c (free.0))
      (until-found n c (suc x) buf s rest (omega arith) (drop-suc x d buf (s ++ (c ∷ rest)) e)
          (free.1)
        ∙ ap done (sym further))

pub over-found :
    (n c d x k : ℕ) (buf rest : List ℕ)
    → k < n
    → drop x buf ≡ replicate k c ++ (d ∷ rest)
    → d ≢ c
    → over n c buf x ≡ done (x + k)
unfolding over
over-found zero c d x k buf rest lt e other = absurd (omega arith)
over-found (suc n) c d x zero buf rest lt e other =
    let here : get_elem? buf x ≡ some d = get-drop x d buf rest e in
    let same : x ≡ x + 0 = omega arith in rw (here, ==_ne d c other) (ap done same)
over-found (suc n) c d x (suc k) buf rest lt e other =
    let here : get_elem? buf x ≡ some c = get-drop x c buf (replicate k c ++ (d ∷ rest)) e in
    let further : x + suc k ≡ suc x + k = omega arith in
    rw (here, ==_refl c)
      (over-found n c d (suc x) k buf rest (omega arith)
          (drop-suc x c buf (replicate k c ++ (d ∷ rest)) e) other
        ∙ ap done (sym further))

-- The value of digits, in 64 bits.
unfoldable pub value_of : ℕ → ℕ
value_of c = elim (digit c) [ none ↦ 0 | some d ↦ d ]

abbrev pub spell_hex : ℕ → List ℕ → ℕ
spell_hex v [] = v
spell_hex v (c ∷ s) = spell_hex ((v * 16 + value_of c) % word) s

abbrev pub AreDigits : List ℕ → Type 0
AreDigits [] = Unit {0}
AreDigits (c ∷ s) = (digit c ≡ some (value_of c)) × AreDigits s

pub hex-found :
    (n stop x v : ℕ) (buf s rest : List ℕ)
    → length s < n
    → drop x buf ≡ s ++ (stop ∷ rest)
    → digit stop ≡ none
    → AreDigits s
    → hex n stop buf x v ≡ done (x + length s, spell_hex v s)
unfolding hex
hex-found zero stop x v buf s rest lt e no_digit digits = absurd (omega arith)
hex-found (suc n) stop x v buf [] rest lt e no_digit digits =
    let here : get_elem? buf x ≡ some stop = get-drop x stop buf rest e in
    let same : x ≡ x + 0 = omega arith in rw (here, ==_refl stop) (ap (λ y. done (y, v)) same)
hex-found (suc n) stop x v buf (c ∷ s) rest lt e no_digit digits =
    let here : get_elem? buf x ≡ some c = get-drop x c buf (s ++ (stop ∷ rest)) e in
    let further : x + suc (length s) ≡ suc x + length s = omega arith in
    let goes_on : c == stop ≡ false =
      ==_ne c stop (λ same. none-some no_digit (ap digit (sym same) ∙ digits.0)) in
    rw (here, goes_on, digits.0)
      (hex-found n stop (suc x) ((v * 16 + value_of c) % word) buf s rest (omega arith)
          (drop-suc x c buf (s ++ (stop ∷ rest)) e) no_digit (digits.1)
        ∙ ap (λ y. done (y, spell_hex ((v * 16 + value_of c) % word) s)) (sym further))

-- What stands in the buffer is not longer than it.
pub fits : (x : ℕ) (buf s rest : List ℕ) → drop x buf ≡ s ++ rest → length s < suc (length buf)
fits x buf s rest e =
    let same : length (drop x buf) ≡ length (s ++ rest) = ap length e in
    omega (arith, same, length-drop x buf, length-append s rest)

pub until-here :
    (n c x : ℕ) (buf rest : List ℕ) → drop x buf ≡ c ∷ rest → until (suc n) c buf x ≡ done x
unfolding until
until-here n c x buf rest e =
    let here : get_elem? buf x ≡ some c = get-drop x c buf rest e in rw (here, ==_refl c) refl

pub drop-set : (x j v : ℕ) (buf : List ℕ) → drop x (set buf (x + j) v) ≡ set (drop x buf) j v
drop-set zero j v buf = let same : 0 + j ≡ j = omega arith in rw same refl
drop-set (suc x) j v [] = refl
drop-set (suc x) j v (b ∷ buf) =
    let same : suc x + j ≡ suc (x + j) = omega arith in rw same (drop-set x j v buf)

-- The bytes of a text in the buffer.
get-within :
    (x k : ℕ) (buf s rest : List ℕ)
    → drop x buf ≡ s ++ rest
    → k < length s
    → Without lf s
    → (d : ℕ) × (get_elem? buf (x + k) ≡ some d) × (d ≢ lf)
get-within x k buf [] rest e lt free = absurd (omega arith)
get-within x zero buf (c ∷ s) rest e lt free =
    let same : x + 0 ≡ x = omega arith in
    (c, ap (get_elem? buf) same ∙ get-drop x c buf (s ++ rest) e, free.0)
get-within x (suc k) buf (c ∷ s) rest e lt free =
    let same : x + suc k ≡ suc x + k = omega arith in
    let (d, there, other) =
      get-within (suc x) k buf s rest (drop-suc x c buf (s ++ rest) e) (omega arith) (free.1) in
    (d, ap (get_elem? buf) same ∙ there, other)

-- From a byte of a line back to its first one.
back-within :
    (x k : ℕ) (buf s rest : List ℕ)
    → drop x buf ≡ s ++ rest
    → k < length s
    → Without lf s
    → back buf (x + k) ≡ back buf x
unfolding back
back-within x zero buf s rest e lt free = let same : x + 0 ≡ x = omega arith in ap (back buf) same
back-within x (suc k) buf s rest e lt free =
    let same : x + suc k ≡ suc (x + k) = omega arith in
    let (d, there, other) = get-within x (suc k) buf s rest e lt free in
    let there' : get_elem? buf (suc (x + k)) ≡ some d = ap (get_elem? buf) (sym same) ∙ there in
    ap (back buf) same
    ∙ rw (there', ==_ne d lf other) (back-within x k buf s rest e (omega arith) free)

-- A line starts at the front, or behind a line end.
unfoldable pub IsStart : List ℕ → ℕ → Type 0
IsStart buf zero = Unit {0}
IsStart buf (suc y) = get_elem? buf y ≡ some lf

pub line_start-found :
    (x i c : ℕ) (buf s rest : List ℕ)
    → drop x buf ≡ (c ∷ s) ++ rest
    → Without lf (c ∷ s)
    → i ≡ x + suc (length s)
    → IsStart buf x
    → line_start buf i ≡ done x
unfolding line_start back IsStart
line_start-found x i c buf s rest e free at_end starts =
    let last : i - 1 ≡ x + length s = omega arith in
    let first = back-within x (length s) buf (c ∷ s) rest e (omega arith) free in
    let here = get-drop x c buf (s ++ rest) e in rw (last, first) (by_start x here starts)
  where
    by_start :
        (x : ℕ)
        → get_elem? buf x ≡ some c
        → IsStart buf x
        → (back buf x >>= λ x. at buf x >>= λ c. done (if c == lf then suc x else x)) ≡ done x
    by_start zero here starts = rw (here, ==_ne c lf (free.0)) refl
    by_start (suc zero) here starts = rw (here, ==_ne c lf (free.0), starts) refl
    by_start (suc (suc y)) here starts = rw (here, ==_ne c lf (free.0), starts) (rw starts refl)
