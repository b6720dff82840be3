-- ===== src/Fortune/Seqfile/Show.antt =====
-- lab_04/part2/seqfile.c: what a reader of the fortunes sees.
use os6_bmstu_iu.Common.{
  ℕ, ◌+◌, ◌<◌, ◌≡◌, refl, ap, subst, true, false, Option, none, some, inl, inr, List, [], ◌∷◌, ◌++◌,
  append-nil, append_assoc, ℤ, arith, ltb, leb, leb_of_lt, le→leb, lt→ltb, length, drop,
  Option-cases, Bool-cases,
}
use os6_bmstu_iu.Fortune.Buffer.{
  page_size, store, put, c_string, copied_block, drop-append, drop-past,
}
use os6_bmstu_iu.Fortune.Cookie.{Fortune, space, put_before, write_fortune}
use os6_bmstu_iu.Fortune.Cookie.Shape.{encode, AllNonZero, Holds}
use os6_bmstu_iu.Fortune.Cookie.Read.{text_at, length-encode}
use os6_bmstu_iu.Fortune.Seqfile.{SeqFortune, seq_write, show_fortune, plain, Plain, PrintsPlain}

-- What `writeFortune` of fortune.c does to the part of its state that seqfile.c has.
abbrev pub seen : Option (ℤ × Fortune) → Option (ℤ × SeqFortune)
seen none = none
seen (some (v, s)) =
    some (v, record { buffer = s.cookie_buffer; read_ind = s.read_ind; write_ind = s.write_ind })

-- `writeFortune` of seqfile.c and of fortune.c do the same, errors included.
pub seq_write-seen :
    (uncopied : ℕ) (from : List ℕ) (s : SeqFortune)
    → seq_write uncopied from s ≡ seen (write_fortune uncopied from (plain s))
unfolding seq_write write_fortune
seq_write-seen uncopied from s = elim (Bool-cases (ltb (space (plain s)) (length from))) [
  | inl full ↦ rw full
  | inr fits ↦
      rw fits (elim (Option-cases (store s.write_ind (copied_block uncopied from) s.buffer)) [
        | inl e ↦ rw e
        | inr (buf, e) ↦ rw e (elim (Bool-cases (ltb 0 uncopied)) [
          | inl left ↦ rw left
          | inr all ↦
              rw all (elim (Option-cases (put_before (s.write_ind + length from) b'\n' buf)) [
                | inl e' ↦ rw e'
                | inr (buf', e') ↦
                    rw e' (elim (Option-cases (put (s.write_ind + length from) 0 buf')) [
                      | inl e'' ↦ rw e''
                      | inr (buf'', e'') ↦ rw e''
                    ])
              ])
        ])
      ])
]

module _ (seq_printf : List ℕ → Option (List ℕ)) (prints : PrintsPlain seq_printf) where
  -- Showing the fortune `c` leaves fortunes `before` read and `after` to be read.
  abbrev pub Shows : SeqFortune → List ℕ → List (List ℕ) → List (List ℕ) → Type 0
  Shows s c before after =
      (s' : SeqFortune) × (show_fortune seq_printf s ≡ some (c, s')) × Holds (plain s') before after

  -- With a fortune left in this round that is not empty and has no `%`, a show gives it, and moves
  -- on to the next.
  pub show_fortune-next :
      (s : SeqFortune) (before : List (List ℕ)) (c : List ℕ) (after : List (List ℕ))
      → Holds (plain s) before (c ∷ after)
      → 0 < length c
      → Plain c
      → Shows s c (before ++ (c ∷ [])) after
  unfolding show_fortune
  show_fortune-next s before c after h some_text no_percent =
      let inside : leb s.write_ind s.read_ind ≡ false =
        leb_of_lt _ _ (omega (arith, h.wrote, h.next, length-encode before c after)) in
      let text : c_string (drop s.read_ind s.buffer) ≡ some c =
        rw (h.layout, h.next) (text_at before c after h.free h.strings) in
      let long : ltb 0 (length c) ≡ true = lt→ltb 0 (length c) some_text in
      let same : (before ++ (c ∷ [])) ++ after ≡ before ++ (c ∷ after) =
        append_assoc before (c ∷ []) after in
      (
        record s { read_ind = s.read_ind + (length c + 1) },
        rw (inside, text, prints c no_percent, long),
        record {
          free = h.free;
          layout = rw same h.layout;
          wrote = rw same h.wrote;
          next = omega (arith, h.next, length-encode before c []);
          page = h.page;
          scratch = h.scratch;
          strings = rw same h.strings;
        },
      )

  -- With all fortunes read in this round, a zero behind them and no `%` in the first, a show gives
  -- the first one and does not move past it: the next show gives it again.
  pub show_fortune-wraps :
      (s : SeqFortune) (c : List ℕ) (rest : List (List ℕ)) (h : Holds (plain s) (c ∷ rest) [])
      → (behind : List ℕ) → h.free ≡ 0 ∷ behind
      → Plain c
      → Shows s c [] (c ∷ rest)
  unfolding show_fortune c_string
  show_fortune-wraps s c rest h behind zero_behind no_percent =
      let whole : (c ∷ rest) ++ [] ≡ c ∷ rest = append-nil (c ∷ rest) in
      let wrapped : leb s.write_ind s.read_ind ≡ true =
        le→leb _ _ (omega (arith, h.wrote, h.next, ap (λ l. length (encode l)) whole)) in
      let layout : s.buffer ≡ encode (c ∷ rest) ++ h.free =
        subst (λ l. s.buffer ≡ encode l ++ h.free) whole h.layout in
      let strings = subst AllNonZero whole h.strings in
      let none_measured : c_string (drop s.read_ind s.buffer) ≡ some [] =
        rw (layout, drop-append (encode (c ∷ rest)) h.free s.read_ind h.next, zero_behind) in
      let text : c_string s.buffer ≡ some c = rw layout (text_at [] c rest h.free strings) in
      (
        record s { read_ind = 0 },
        rw (none_measured, wrapped, text, prints c no_percent),
        record {
          free = h.free;
          layout = layout;
          wrote = subst (λ l. s.write_ind ≡ length (encode l)) whole h.wrote;
          next = refl;
          page = h.page;
          scratch = h.scratch;
          strings = strings;
        },
      )

  -- With all fortunes read and the page full to its last byte, a show measures a string behind the
  -- page.
  pub show_fortune-past :
      (s : SeqFortune) (cs : List (List ℕ)) (h : Holds (plain s) cs [])
      → s.write_ind ≡ page_size
      → show_fortune seq_printf s ≡ none
  unfolding show_fortune c_string
  show_fortune-past s cs h full =
      let past : drop s.read_ind s.buffer ≡ [] =
        drop-past s.buffer s.read_ind
          (omega (arith, h.wrote, h.next, h.page, ap (λ l. length (encode l)) (append-nil cs))) in
      rw past
