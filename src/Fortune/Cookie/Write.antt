-- ===== src/Fortune/Cookie/Write.antt =====
-- `writeFortune` of lab_04/part2/fortune.c: a fortune that fits is stored behind the others.
use os6_bmstu_iu.Common.{
  ℕ, ◌+◌, ◌-◌, ◌≤◌, ◌<◌, ◌≡◌, ap, sym, ◌∙◌, subst, false, some, List, [], ◌∷◌, ◌++◌, append_assoc,
  pos, arith, ltb, ◌==◌, ltb_of_le, ==_ne, length, length-append, drop,
}
use os6_bmstu_iu.Fortune.Buffer.{
  page_size, store, put, NonZero, copied_block_all, store-append, put-append, drop-cons, length-put,
  length-store,
}
use os6_bmstu_iu.Fortune.Cookie.{Fortune, space, put_before, write_fortune}
use os6_bmstu_iu.Fortune.Cookie.Shape.{
  encode, AllNonZero, encode-append, AllNonZero-append, NonZero-append, Holds, write_ind-free,
}

-- While the index is inside the page, the guard leaves one byte too many.
pub space-eq : (s : Fortune) → s.write_ind ≤ page_size → space s ≡ page_size + 1 - s.write_ind
space-eq s small = omega arith

pub length-put_before :
    (i v : ℕ) (buf buf' : List ℕ) → put_before i v buf ≡ some buf' → length buf' ≡ length buf
length-put_before i v buf buf' e = ground (arith, length-put (i - 1) v buf buf')

module _ (used body free : List ℕ) (last : ℕ) (i : ℕ) (at : i ≡ length used)
    (fits : length body + 2 ≤ length free) where
  -- Three writes: the block, the line end over its last byte, and the zero behind it.
  pub three_writes :
      (rest : List ℕ) × (store i (body ++ (last ∷ [])) (used ++ free)
        ≡ some (used ++ ((body ++ (last ∷ [])) ++ drop (length (body ++ (last ∷ []))) free)))
      × (put_before
            (i + length (body ++ (last ∷ [])))
            b'\n'
            (used ++ ((body ++ (last ∷ [])) ++ drop (length (body ++ (last ∷ []))) free))
          ≡ some ((used ++ body) ++ (b'\n' ∷ drop (length (body ++ (last ∷ []))) free)))
      × (put
            (i + length (body ++ (last ∷ [])))
            0
            ((used ++ body) ++ (b'\n' ∷ drop (length (body ++ (last ∷ []))) free))
          ≡ some ((used ++ body) ++ (b'\n' ∷ 0 ∷ rest)))
  three_writes =
      let n = length (body ++ (last ∷ [])) in
      let size : n ≡ length body + 1 = length-append body (last ∷ []) in
      let (y, rest, e) = drop-cons free n (omega arith) in
      let test : (i + n == 0) ≡ false = ==_ne _ _ (omega arith) in
      let regroup : used ++ ((body ++ (last ∷ [])) ++ drop n free)
          ≡ (used ++ body) ++ (last ∷ drop n free) =
        ap (◌++◌ used) (append_assoc body (last ∷ []) (drop n free))
        ∙ sym (append_assoc used body (last ∷ drop n free)) in
      let regroup' : (l : List ℕ)
          → (used ++ body) ++ (b'\n' ∷ l) ≡ ((used ++ body) ++ (b'\n' ∷ [])) ++ l =
        λ l. sym (append_assoc (used ++ body) (b'\n' ∷ []) l) in
      (
        rest,
        store-append used (body ++ (last ∷ [])) free i at (omega arith),
        rw (test, regroup)
            (put-append (used ++ body) last b'\n' (drop n free) (i + n - 1)
              (omega (arith, length-append used body))),
        rw (e, regroup' (y ∷ rest), regroup' (0 ∷ rest))
            (put-append ((used ++ body) ++ (b'\n' ∷ [])) y 0 rest (i + n)
              (omega (arith, length-append used body, length-append (used ++ body) (b'\n' ∷ [])))),
      )

-- The stored form of a message: its last byte becomes a line end.
abbrev pub cookie : List ℕ → List ℕ
cookie body = body ++ (b'\n' ∷ [])

encode-snoc :
    (before after : List (List ℕ)) (body : List ℕ)
    → encode (before ++ (after ++ (cookie body ∷ [])))
      ≡ encode (before ++ after) ++ (body ++ (b'\n' ∷ 0 ∷ []))
encode-snoc before after body =
    ap encode (sym (append_assoc before after (cookie body ∷ [])))
    ∙ encode-append (before ++ after) (cookie body ∷ [])
    ∙ ap (◌++◌ (encode (before ++ after))) (append_assoc body (b'\n' ∷ []) (0 ∷ []))

module _ (s : Fortune) (before after : List (List ℕ)) (h : Holds s before after) where
  fits-space : (len : ℕ) → s.write_ind + len < page_size → ltb (space s) len ≡ false
  fits-space len small = ltb_of_le (space s) len (omega (arith, space-eq s (omega arith)))

  -- A message of at least one byte that leaves room for the final zero, and has no zero before its
  -- last byte, is stored behind the others: the call returns its length.
  pub write_fortune-Holds :
      (body : List ℕ) (last : ℕ)
      → NonZero body
      → s.write_ind + length (body ++ (last ∷ [])) < page_size
      → (s' : Fortune) × (write_fortune 0 (body ++ (last ∷ [])) s
          ≡ some (pos (length (body ++ (last ∷ []))), s'))
        × Holds s' before (after ++ (cookie body ∷ []))
  unfolding write_fortune
  write_fortune-Holds body last text small =
      let used = encode (before ++ after) in
      let from = body ++ (last ∷ []) in
      let size : length from ≡ length body + 1 = length-append body (last ∷ []) in
      let (rest, stored, ended, closed) =
        three_writes used body h.free last s.write_ind h.wrote
          (omega (arith, write_ind-free s before after h)) in
      let s' = record s {
        cookie_buffer = (used ++ body) ++ (b'\n' ∷ 0 ∷ rest);
        write_ind = s.write_ind + length from + 1;
      } in
      (
        s',
        rw (fits-space (length from) small, copied_block_all from, h.layout, stored)
            (rw (ended) (rw closed)),
        record {
          free = rest;
          layout = rw (encode-snoc before after body) (simp append_assoc);
          wrote = omega (
            arith,
            h.wrote,
            ap length (encode-snoc before after body),
            length-append used (body ++ (b'\n' ∷ 0 ∷ [])),
            length-append body (b'\n' ∷ 0 ∷ []),
          );
          next = h.next;
          page =
              length-put _ _ _ _ closed
              ∙ length-put_before _ _ _ _ ended
              ∙ length-store _ _ _ _ stored
              ∙ ap length (sym h.layout)
              ∙ h.page;
          scratch = h.scratch;
          strings = subst AllNonZero (append_assoc before after (cookie body ∷ [])) (
              AllNonZero-append (before ++ after) (cookie body ∷ []) h.strings
                (NonZero-append body (b'\n' ∷ []) text (omega arith, tt), tt));
        },
      )
