-- ===== src/Procinfo/Stat.antt =====
-- lab_04/part1/main.c: infoProcessStat, which pairs the words of a file with their meanings.
use os6_bmstu_iu.Common.{
  ℕ, suc, ◌+◌, ◌-◌, ◌<◌, ◌≡◌, ◌≢◌, refl, ap, sym, ◌∙◌, true, false, Bool-cases, inl, inr, some,
  List, [], ◌∷◌, ◌++◌, append_assoc, append-nil, arith, codes, length, take, drop, replicate,
  is_nil, get_elem?, leb, ◌==◌, if◌then◌else◌, c_string, c_string-append, NonZero, append-NonZero,
  zeros_behind, take-le, ==_ne, le→leb, leb_of_lt,
}
use os6_bmstu_iu.Procinfo.{
  buf_size, Outcome, done, crashed, need, ◌>>=◌, Proc, title, get_path, prepare_print, lf, space,
}

-- `strtok(…, " ")`, called until it gives NULL, with what the current word has so far.
unfoldable pub strtok : (word text : List ℕ) → List (List ℕ)
strtok word [] = if is_nil word then [] else word ∷ []
strtok word (c ∷ cs) =
    let more = strtok [] cs in
    let longer = strtok (word ++ (c ∷ [])) cs in
    if c == space then (if is_nil word then more else word ∷ more) else longer

-- `fprintf(f_out, "%s = %s\n", meanings[i], elem)`
abbrev pub row : List ℕ → List ℕ → List ℕ
row name elem = name ++ (codes " = " ++ (elem ++ (lf ∷ [])))

-- The loop over the words: `i += 2` steps over the explanation of each name.
unfoldable pub rows : (meanings : List (List ℕ)) → (i : ℕ) → List (List ℕ) → Outcome (List ℕ)
rows meanings i [] = done []
rows meanings i (elem ∷ elems) = do
  name ← need (get_elem? meanings i)
  more ← rows meanings (i + 2) elems
  done (row name elem ++ more)

-- `infoProcessStat`
unfoldable pub info_process_stat : Proc → List ℕ → List (List ℕ) → Outcome (List ℕ)
info_process_stat k name meanings = do
  (f_read, start) ← prepare_print k (get_path name)
  file ← need f_read
  let chunk = take buf_size file
  buf ← need (c_string (chunk ++ drop (length chunk) (replicate buf_size 0)))
  text ← rows meanings 0 (strtok [] buf)
  done (start ++ text)

-- Words with a space between them.
abbrev pub join : List (List ℕ) → List ℕ
join [] = []
join (t ∷ []) = t
join (t ∷ ts) = t ++ (space ∷ join ts)

-- A word has bytes, none of which is a space or zero.
abbrev pub Plain : List ℕ → Type 0
Plain [] = Unit {0}
Plain (c ∷ cs) = (c ≢ space) × (c ≢ 0) × Plain cs

abbrev pub IsWord : List ℕ → Type 0
IsWord t = (is_nil t ≡ false) × Plain t

abbrev pub AreWords : List (List ℕ) → Type 0
AreWords [] = Unit {0}
AreWords (t ∷ ts) = IsWord t × AreWords ts

Plain-NonZero : (t : List ℕ) → Plain t → NonZero t
Plain-NonZero [] h = tt
Plain-NonZero (c ∷ cs) h = (h.1, Plain-NonZero cs (h.2))

join-NonZero : (ts : List (List ℕ)) → AreWords ts → NonZero (join ts)
join-NonZero [] h = tt
join-NonZero (t ∷ []) h = Plain-NonZero t (h.0.1)
join-NonZero (t ∷ u ∷ ts) h =
    append-NonZero t (space ∷ join (u ∷ ts)) (Plain-NonZero t (h.0.1))
      ((λ e. omega arith), join-NonZero (u ∷ ts) (h.1))

-- The bytes of a word are gathered.
strtok-append : (word t rest : List ℕ) → Plain t → strtok word (t ++ rest) ≡ strtok (word ++ t) rest
unfolding strtok
strtok-append word [] rest h = ap (λ w. strtok w rest) (sym (append-nil word))
strtok-append word (c ∷ t) rest h = rw (==_ne c space (h.0)) (
    strtok-append (word ++ (c ∷ [])) t rest (h.2)
    ∙ ap (λ w. strtok w rest) (append_assoc word (c ∷ []) t))

-- The words of a text are found again.
strtok-join : (ts : List (List ℕ)) → AreWords ts → strtok [] (join ts) ≡ ts
unfolding strtok
strtok-join [] h = refl
strtok-join (t ∷ []) h =
    ap (strtok []) (sym (append-nil t)) ∙ strtok-append [] t [] (h.0.1) ∙ rw (h.0.0) refl
strtok-join (t ∷ u ∷ ts) h =
    strtok-append [] t (space ∷ join (u ∷ ts)) (h.0.1) ∙ rw (h.0.0, strtok-join (u ∷ ts) (h.1)) refl

-- The names and explanations as they stand in the table.
abbrev pub flatten : List (List ℕ × List ℕ) → List (List ℕ)
flatten [] = []
flatten (m ∷ ms) = m.0 ∷ m.1 ∷ flatten ms

-- Each name with its word.
abbrev pub table : List (List ℕ × List ℕ) → List (List ℕ) → List ℕ
table ms [] = []
table [] (t ∷ ts) = []
table (m ∷ ms) (t ∷ ts) = row (m.0) t ++ table ms ts

at_start :
    (all : List (List ℕ)) (i : ℕ) (xs : List (List ℕ))
    → ((j : ℕ) → get_elem? all (i + j) ≡ get_elem? xs j)
    → get_elem? all i ≡ get_elem? xs 0
at_start all i xs same = let there : i ≡ i + 0 = omega arith in ap (get_elem? all) there ∙ same 0

rows-flatten :
    (all : List (List ℕ)) (i : ℕ) (ms : List (List ℕ × List ℕ)) (ts : List (List ℕ))
    → ((j : ℕ) → get_elem? all (i + j) ≡ get_elem? (flatten ms) j)
    → rows all i ts ≡ (if leb (length ts) (length ms) then done (table ms ts) else crashed)
unfolding rows
rows-flatten all i ms [] same =
    let enough : leb 0 (length ms) ≡ true = le→leb 0 (length ms) (omega arith) in rw enough refl
rows-flatten all i [] (t ∷ ts) same =
    let over : leb (suc (length ts)) 0 ≡ false = leb_of_lt (suc (length ts)) 0 (omega arith) in
    rw (at_start all i [] same, over) refl
rows-flatten all i (m ∷ ms) (t ∷ ts) same =
    let rest : rows all (i + 2) ts
        ≡ (if leb (length ts) (length ms) then done (table ms ts) else crashed) =
      rows-flatten all (i + 2) ms ts (λ j.
        let further : i + 2 + j ≡ i + suc (suc j) = omega arith in
        ap (get_elem? all) further ∙ same (suc (suc j))) in
    elim (Bool-cases (leb (length ts) (length ms))) [
      | inl fits ↦
          let more : leb (suc (length ts)) (suc (length ms)) ≡ true = ground (arith, fits) in
          rw (at_start all i (flatten (m ∷ ms)) same, rest, fits, more) refl
      | inr over ↦
          let more : leb (suc (length ts)) (suc (length ms)) ≡ false = ground (arith, over) in
          rw (at_start all i (flatten (m ∷ ms)) same, rest, over, more) refl
    ]

-- What infoProcessStat writes for a file of words with a space between them, shorter than the buffer:
-- each word behind the name of its place, if there are as many names as words; otherwise it reads
-- behind the table.
pub info_process_stat-join :
    (k : Proc) (name : List ℕ) (ms : List (List ℕ × List ℕ)) (ts : List (List ℕ))
    → k.appends ≡ true
    → k.read (get_path name) ≡ some (join ts)
    → length (join ts) < buf_size
    → AreWords ts
    → info_process_stat k name (flatten ms) ≡ (
        if leb (length ts) (length ms)
        then done (title (get_path name) ++ table ms ts)
        else crashed)
unfolding info_process_stat prepare_print
info_process_stat-join k name ms ts opens reads short words =
    let text = join ts in
    let zeros : List ℕ = replicate (buf_size - length text - 1) 0 in
    let whole : take buf_size text ≡ text = take-le text buf_size (omega arith) in
    let behind : drop {A = ℕ} (length text) (replicate buf_size 0) ≡ 0 ∷ zeros =
      zeros_behind buf_size text short in
    let string : c_string (text ++ (0 ∷ zeros)) ≡ some text =
      c_string-append text zeros (join-NonZero ts words) in
    let found : rows (flatten ms) 0 ts
        ≡ (if leb (length ts) (length ms) then done (table ms ts) else crashed) =
      rows-flatten (flatten ms) 0 ms ts
        (λ j. let same : 0 + j ≡ j = omega arith in ap (get_elem? (flatten ms)) same) in
    elim (Bool-cases (leb (length ts) (length ms))) [
      | inl fits ↦ rw (opens, reads, whole, behind, string, strtok-join ts words, found, fits) refl
      | inr over ↦ rw (opens, reads, whole, behind, string, strtok-join ts words, found, over) refl
    ]
