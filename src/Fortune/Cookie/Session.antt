-- ===== src/Fortune/Cookie/Session.antt =====
-- Programs that write fortunes to lab_04/part2/fortune.c and then read them, one `open` per read.
use os6_bmstu_iu.Common.{
  ℕ, zero, suc, ◌+◌, ◌*◌, ◌≤◌, ◌<◌, ◌≡◌, refl, ap, sym, subst, Option, some, List, [], ◌∷◌, ◌++◌,
  append_assoc, append-nil, false, arith, length, length-append, ◌>>=◌,
}
use os6_bmstu_iu.Fortune.Buffer.{page_size, NonZero}
use os6_bmstu_iu.Fortune.Cookie.{Fortune, fresh, write_fortune, read_fortune}
use os6_bmstu_iu.Fortune.Cookie.Shape.{encode, encode-append, Holds, fresh-Holds}
use os6_bmstu_iu.Fortune.Cookie.Write.{cookie, write_fortune-Holds}
use os6_bmstu_iu.Fortune.Cookie.Read.{read_fortune-next, read_fortune-again}

-- A message: its bytes before the last, and the last one.
abbrev pub Message : Type 0
Message = List ℕ × ℕ

abbrev pub bytes : Message → List ℕ
bytes m = m.0 ++ (m.1 ∷ [])

-- One `write` after the other.
unfoldable pub write_all : List Message → Fortune → Option Fortune
write_all [] s = some s
write_all (m ∷ ms) s = do r ← write_fortune 0 (bytes m) s; write_all ms (r.1)

-- `n` reads, each at position 0: what reaches the user.
unfoldable pub read_all : ℕ → Fortune → Option (List (List ℕ))
read_all zero s = some []
read_all (suc n) s = do r ← read_fortune false 0 s; rest ← read_all n r.state; some (r.sent ∷ rest)

-- What a message is stored as, and what a reader sees of it.
abbrev pub cookies : List Message → List (List ℕ)
cookies [] = []
cookies (m ∷ ms) = cookie (m.0) ∷ cookies ms

abbrev pub lines : List (List ℕ) → List (List ℕ)
lines [] = []
lines (c ∷ cs) = (c ++ (b'\n' ∷ [])) ∷ lines cs

-- The bytes that messages take with their zeros.
abbrev pub total : List Message → ℕ
total [] = 0
total (m ∷ ms) = length (bytes m) + 1 + total ms

abbrev pub AreTexts : List Message → Type 0
AreTexts [] = Unit {0}
AreTexts (m ∷ ms) = NonZero (m.0) × AreTexts ms

mul_suc_left : (n k : ℕ) → suc n * k ≡ k + n * k
mul_suc_left n k = omega arith

write_all-Holds :
    (ms : List Message) (s : Fortune) (cs : List (List ℕ))
    → Holds s [] cs
    → AreTexts ms
    → s.write_ind + total ms ≤ page_size
    → (s' : Fortune) × (write_all ms s ≡ some s') × Holds s' [] (cs ++ cookies ms)
unfolding write_all
write_all-Holds [] s cs h texts fits = (s, refl, subst (λ l. Holds s [] l) (sym (append-nil cs)) h)
write_all-Holds (m ∷ ms) s cs h texts fits =
    let (s1, wrote, h1) = write_fortune-Holds s [] cs h (m.0) (m.1) (texts.0) (omega arith) in
    let used : s1.write_ind ≡ s.write_ind + length (bytes m) + 1 = omega (
      arith,
      h1.wrote,
      h.wrote,
      ap length (encode-append cs (cookie (m.0) ∷ [])),
      length-append (encode cs) (encode (cookie (m.0) ∷ [])),
      length-append (cookie (m.0)) (0 ∷ []),
      length-append (m.0) (b'\n' ∷ []),
      length-append (m.0) (m.1 ∷ []),
    ) in
    let (s2, rest, h2) =
      write_all-Holds ms s1 (cs ++ (cookie (m.0) ∷ [])) h1 (texts.1) (omega arith) in
    (
      s2,
      rw wrote rest,
      subst (λ l. Holds s2 [] l) (append_assoc cs (cookie (m.0) ∷ []) (cookies ms)) h2,
    )

-- All are short enough for the line buffer.
abbrev AreShort : List (List ℕ) → Type 0
AreShort [] = Unit {0}
AreShort (c ∷ cs) = (length c + 1 < page_size) × AreShort cs

-- A round of reads from the first fortune that is left to the last one.
Round : Fortune → List (List ℕ) → List (List ℕ) → Type 0
Round s all after =
    (s' : Fortune) × ((n k : ℕ)
      → (out : List (List ℕ)) → n ≡ length after + k
      → read_all k s' ≡ some out
      → read_all n s ≡ some (lines after ++ out))
    × Holds s' all []

read_all-Round :
    (before after : List (List ℕ)) (s : Fortune)
    → Holds s before after
    → AreShort after
    → Round s (before ++ after) after
unfolding read_all Round
read_all-Round before [] s h short = (
  s,
  λ n k out count e. subst (λ j. read_all j s ≡ some out) (omega arith) e,
  subst (λ l. Holds s l []) (sym (append-nil before)) h,
)
read_all-Round before (c ∷ after) s h short =
    let (s1, gives, h1) = read_fortune-next s before c after h (short.0) in
    let (s2, rest, h2) = read_all-Round (before ++ (c ∷ [])) after s1 h1 (short.1) in
    (
      s2,
      λ n k out count e.
          let shift : n ≡ suc (length after + k) = omega arith in
          rw (shift, gives, rest (length after + k) k out refl e),
      subst (λ l. Holds s2 l []) (append_assoc before (c ∷ []) after) h2,
    )

-- A whole round, from the state in which all have been read.
read_all-again-Round :
    (cs : List (List ℕ)) (s : Fortune) → Holds s cs [] → AreShort cs → Round s cs cs
unfolding read_all Round
read_all-again-Round [] s h short =
    (s, λ n k out count e. subst (λ j. read_all j s ≡ some out) (omega arith) e, h)
read_all-again-Round (c ∷ cs) s h short =
    let (s1, gives, h1) = read_fortune-again s c cs h (short.0) in
    let (s2, rest, h2) = read_all-Round (c ∷ []) cs s1 h1 (short.1) in
    (
      s2,
      λ n k out count e.
          let shift : n ≡ suc (length cs + k) = omega arith in
          rw (shift, gives, rest (length cs + k) k out refl e),
      h2,
    )

-- A list, `n` times in a row.
abbrev pub cycle : ℕ → List (List ℕ) → List (List ℕ)
cycle zero l = []
cycle (suc n) l = l ++ cycle n l

read_all-cycle :
    (cs : List (List ℕ)) (rounds : ℕ) (s : Fortune)
    → Holds s cs []
    → AreShort cs
    → read_all (rounds * length cs) s ≡ some (cycle rounds (lines cs))
unfolding read_all Round
read_all-cycle cs zero s h short = let none_left : 0 * length cs ≡ 0 = omega arith in rw none_left
read_all-cycle cs (suc rounds) s h short =
    let (s1, first, h1) = read_all-again-Round cs s h short in
    first (suc rounds * length cs) (rounds * length cs) (cycle rounds (lines cs))
      (mul_suc_left rounds (length cs)) (read_all-cycle cs rounds s1 h1 short)

short-fits : (ms : List Message) → total ms < page_size → AreShort (cookies ms)
short-fits [] fits = tt
short-fits (m ∷ ms) fits = (
  omega (arith, length-append (m.0) (b'\n' ∷ []), length-append (m.0) (m.1 ∷ [])),
  short-fits ms (omega arith),
)

-- After messages that fit in the page with their zeros and leave a byte of it, and have no zero before their last byte,
-- have been written to a fresh module, reads give them in the order of the writes, again and again.
-- The last byte of each is replaced by two line ends.
pub write_all-read_all :
    (ms : List Message) (rounds : ℕ)
    → AreTexts ms
    → total ms < page_size
    → (s : Fortune) × (write_all ms fresh ≡ some s)
      × (read_all (suc rounds * length (cookies ms)) s
          ≡ some (cycle (suc rounds) (lines (cookies ms))))
unfolding Round
write_all-read_all ms rounds texts fits =
    let (s, wrote, h) = write_all-Holds ms fresh [] fresh-Holds texts (omega arith) in
    let cs = cookies ms in
    let (s1, first, h1) = read_all-Round [] cs s h (short-fits ms fits) in
    (
      s,
      wrote,
      first (suc rounds * length cs) (rounds * length cs) (cycle rounds (lines cs))
          (mul_suc_left rounds (length cs)) (read_all-cycle cs rounds s1 h1 (short-fits ms fits)),
    )
