-- ===== src/Fortune/Cookie/Read.antt =====
-- `readFortune` of lab_04/part2/fortune.c: fortunes come out in the order in which they went in,
-- and after the last one the first again.
use os6_bmstu_iu.Common.{
  take-le, ℕ, ◌+◌, ◌-◌, ◌<◌, ◌≡◌, refl, ap, sym, ◌∙◌, subst, true, false, some, List, [], ◌∷◌, ◌++◌,
  append_assoc, append-nil, pos, arith, ltb, leb, ◌==◌, ltb_of_le, leb_of_lt, le→leb, ==_ne, length,
  length-append, length-drop, take, drop,
}
use os6_bmstu_iu.Fortune.Buffer.{
  page_size, NonZero, c_string, c_string-append, take-append, drop-append, store-append,
}
use os6_bmstu_iu.Fortune.Cookie.{Fortune, reply, start_of, print_line, read_fortune}
use os6_bmstu_iu.Fortune.Cookie.Shape.{encode, AllNonZero, encode-append, Holds}

-- `snprintf` of a line that fits: the text, the line end and a zero.
print_line-fits :
    (text tmp : List ℕ)
    → length text + 1 < page_size
    → length tmp ≡ page_size
    → print_line text tmp ≡ some ((text ++ (b'\n' ∷ [])) ++ (0 ∷ drop (length text + 2) tmp))
unfolding print_line
print_line-fits text tmp small page =
    let line = text ++ (b'\n' ∷ []) in
    let size : length line ≡ length text + 1 = length-append text (b'\n' ∷ []) in
    let whole : take (page_size - 1) line ≡ line = take-le line (page_size - 1) (omega arith) in
    let block : length (line ++ (0 ∷ [])) ≡ length text + 2 =
      omega (arith, length-append line (0 ∷ [])) in
    rw whole (
      store-append [] (line ++ (0 ∷ [])) tmp 0 refl (omega arith)
      ∙ rw block (ap some (append_assoc line (0 ∷ []) (drop (length text + 2) tmp))))

-- A string of the buffer, and what stands before and behind it.
pub text_at :
    (bs : List (List ℕ)) (c : List ℕ) (cs : List (List ℕ)) (free : List ℕ)
    → AllNonZero (bs ++ (c ∷ cs))
    → c_string (drop (length (encode bs)) (encode (bs ++ (c ∷ cs)) ++ free)) ≡ some c
text_at bs c cs free strings =
    let split : encode (bs ++ (c ∷ cs)) ++ free ≡ encode bs ++ (c ++ (0 ∷ (encode cs ++ free))) =
      rw (encode-append bs (c ∷ cs)) (simp append_assoc) in
    rw (split, drop-append (encode bs) (c ++ (0 ∷ (encode cs ++ free))) (length (encode bs)) refl)
      (c_string-append c (encode cs ++ free) (text_NonZero bs strings))
  where
    text_NonZero : (bs : List (List ℕ)) → AllNonZero (bs ++ (c ∷ cs)) → NonZero c
    text_NonZero [] h = h.0
    text_NonZero (b ∷ bs) h = text_NonZero bs h.1

-- A read that starts at the fortune `c`.
record ReadsAt (s : Fortune) (bs : List (List ℕ)) (c : List ℕ) (cs : List (List ℕ)) : Type 0 where
  free : List ℕ
  layout : s.cookie_buffer ≡ encode (bs ++ (c ∷ cs)) ++ free
  wrote : s.write_ind ≡ length (encode (bs ++ (c ∷ cs)))
  starts : start_of s ≡ length (encode bs)
  page : length s.cookie_buffer ≡ page_size
  scratch : length s.tmp_buffer ≡ page_size
  strings : AllNonZero (bs ++ (c ∷ cs))

-- What a read of the fortune `c` gives.
abbrev pub Gives : Fortune → List ℕ → List (List ℕ) → List (List ℕ) → Type 0
Gives s c before after =
    (s' : Fortune) × (read_fortune false 0 s
      ≡ some (reply (pos (length c + 1)) (c ++ (b'\n' ∷ [])) (length c + 1) s'))
    × Holds s' before after

pub length-encode :
    (bs : List (List ℕ)) (c : List ℕ) (cs : List (List ℕ))
    → length (encode (bs ++ (c ∷ cs))) ≡ length (encode bs) + length c + 1 + length (encode cs)
length-encode bs c cs = omega (
  arith,
  ap length (encode-append bs (c ∷ cs)),
  length-append (encode bs) (encode (c ∷ cs)),
  length-append c (0 ∷ encode cs),
)

read_at :
    (s : Fortune) (bs : List (List ℕ)) (c : List ℕ) (cs : List (List ℕ))
    → ReadsAt s bs c cs
    → length c + 1 < page_size
    → Gives s c (bs ++ (c ∷ [])) cs
unfolding read_fortune
read_at s bs c cs at small =
    let some_written : (s.write_ind == 0) ≡ false =
      ==_ne _ _ (omega (arith, at.wrote, length-encode bs c cs)) in
    let text : c_string (drop (start_of s) s.cookie_buffer) ≡ some c =
      rw (at.layout, at.starts) (text_at bs c cs at.free at.strings) in
    let same : (bs ++ (c ∷ [])) ++ cs ≡ bs ++ (c ∷ cs) = append_assoc bs (c ∷ []) cs in
    let short : ltb page_size (length c + 1) ≡ false =
      ltb_of_le page_size (length c + 1) (omega arith) in
    let line = c ++ (b'\n' ∷ []) in
    let tmp = line ++ (0 ∷ drop (length c + 2) s.tmp_buffer) in
    let size : length c + 1 ≡ length line = sym (length-append c (b'\n' ∷ [])) in
    let sent : take (length c + 1) tmp ≡ line =
      take-append line (0 ∷ drop (length c + 2) s.tmp_buffer) (length c + 1) size in
    let s' = record s { tmp_buffer = tmp; read_ind = start_of s + (length c + 1) } in
    (
      s',
      rw (some_written, text, print_line-fits c s.tmp_buffer small at.scratch, short, sent)
          (ap (λ p. some (reply (pos (length c + 1)) line p s')) (omega arith)),
      record {
        free = at.free;
        layout = rw same at.layout;
        wrote = rw same at.wrote;
        next = omega (arith, at.starts, length-encode bs c []);
        page = at.page;
        scratch = omega (
          arith,
          at.scratch,
          size,
          length-append line (0 ∷ drop (length c + 2) s.tmp_buffer),
          length-drop (length c + 2) s.tmp_buffer,
        );
        strings = rw same at.strings;
      },
    )

-- With a fortune left in this round, and short enough for the line buffer, a read at position 0
-- gives that fortune with one more line end, and moves on to the next.
pub read_fortune-next :
    (s : Fortune) (before : List (List ℕ)) (c : List ℕ) (after : List (List ℕ))
    → Holds s before (c ∷ after)
    → length c + 1 < page_size
    → Gives s c (before ++ (c ∷ [])) after
read_fortune-next s before c after h small =
    let inside : leb s.write_ind s.read_ind ≡ false =
      leb_of_lt _ _ (omega (arith, h.wrote, h.next, length-encode before c after)) in
    read_at s before c after
      (record {
        free = h.free;
        layout = h.layout;
        wrote = h.wrote;
        starts = rw inside h.next;
        page = h.page;
        scratch = h.scratch;
        strings = h.strings;
      })
      small

-- With all fortunes read in this round, and the first short enough for the line buffer, a read at
-- position 0 gives the first again.
pub read_fortune-again :
    (s : Fortune) (c : List ℕ) (rest : List (List ℕ))
    → Holds s (c ∷ rest) []
    → length c + 1 < page_size
    → Gives s c (c ∷ []) rest
read_fortune-again s c rest h small =
    let whole : (c ∷ rest) ++ [] ≡ c ∷ rest = append-nil (c ∷ rest) in
    let wrapped : leb s.write_ind s.read_ind ≡ true =
      le→leb _ _ (omega (arith, h.wrote, h.next, ap (λ l. length (encode l)) whole)) in
    read_at s [] c rest
      (record {
        free = h.free;
        layout = subst (λ l. s.cookie_buffer ≡ encode l ++ h.free) whole h.layout;
        wrote = subst (λ l. s.write_ind ≡ length (encode l)) whole h.wrote;
        starts = rw wrapped;
        page = h.page;
        scratch = h.scratch;
        strings = subst AllNonZero whole h.strings;
      })
      small
