-- ===== src/Fortune/Cookie/Refuse.antt =====
-- `writeFortune` of lab_04/part2/fortune.c, where it does not store a fortune.
use os6_bmstu_iu.Common.{
  ℕ, ◌+◌, ◌≤◌, ◌<◌, ◌≡◌, refl, ap, sym, ◌∙◌, true, false, none, some, List, [], ◌++◌, arith, ltb,
  ltb_of_le, lt→ltb, inl, inr, length, ◌>>=◌, Option, Option-cases, drop,
}
use os6_bmstu_iu.Fortune.Buffer.{
  page_size, store, put, copied_block, length-copied_block, copied_block_all, store-append,
  length-store,
}
use os6_bmstu_iu.Fortune.Cookie.{Fortune, space, enospc, efault, put_before, write_fortune}
use os6_bmstu_iu.Fortune.Cookie.Shape.{encode, Holds, write_ind-free}
use os6_bmstu_iu.Fortune.Cookie.Write.{space-eq, length-put_before}

-- No byte is put behind the buffer.
put-none : (i v : ℕ) (buf : List ℕ) → length buf ≤ i → put i v buf ≡ none
unfolding put
put-none i v buf past =
    let test : ltb i (length buf) ≡ false = ltb_of_le i (length buf) past in rw test

-- The line end and the zero, at an index behind the buffer.
put_twice-none :
    {B : Type 0} (i v : ℕ) (buf : List ℕ) (k : List ℕ → Option B)
    → length buf ≤ i
    → (put_before i v buf >>= λ b. put i 0 b >>= k) ≡ none
put_twice-none i v buf k past = elim (Option-cases (put_before i v buf)) [
  | inl e ↦ rw e
  | inr (b, e) ↦
      let test : put i 0 b ≡ none = put-none i 0 b (omega (arith, length-put_before i v buf b e)) in
      rw (e, test)
]

module _ (s : Fortune) (before after : List (List ℕ)) (h : Holds s before after) where
  room : s.write_ind ≤ page_size
  room = omega (arith, write_ind-free s before after h)

  -- A message longer than what is left of the page and one byte more is refused with -ENOSPC, and
  -- nothing changes.
  pub write_fortune-full :
      (uncopied : ℕ) (from : List ℕ)
      → page_size + 1 < s.write_ind + length from
      → write_fortune uncopied from s ≡ some (enospc, s)
  unfolding write_fortune
  write_fortune-full uncopied from full =
      let test : ltb (space s) (length from) ≡ true =
        lt→ltb (space s) (length from) (omega (arith, space-eq s room, room)) in
      rw test

  -- A message that fits the page and cannot be read whole from the user is refused with -EFAULT:
  -- the same fortunes are held.
  pub write_fortune-unread :
      (uncopied : ℕ) (from : List ℕ)
      → 0 < uncopied
      → s.write_ind + length from ≤ page_size
      → (s' : Fortune) × (write_fortune uncopied from s ≡ some (efault, s')) × Holds s' before after
  unfolding write_fortune
  write_fortune-unread uncopied from some_left small =
      let block = copied_block uncopied from in
      let size : length block ≡ length from = length-copied_block uncopied from in
      let test : ltb (space s) (length from) ≡ false =
        ltb_of_le (space s) (length from) (omega (arith, space-eq s room, room)) in
      let left : ltb 0 uncopied ≡ true = lt→ltb 0 uncopied some_left in
      let used = encode (before ++ after) in
      let stored : store s.write_ind block (used ++ h.free)
          ≡ some (used ++ (block ++ drop (length block) h.free)) =
        store-append used block h.free s.write_ind h.wrote
          (omega (arith, write_ind-free s before after h)) in
      (
        record s { cookie_buffer = used ++ (block ++ drop (length block) h.free) },
        rw (test, h.layout, stored, left),
        record {
          free = block ++ drop (length block) h.free;
          layout = refl;
          wrote = h.wrote;
          next = h.next;
          page = length-store _ _ _ _ stored ∙ ap length (sym h.layout) ∙ h.page;
          scratch = h.scratch;
          strings = h.strings;
        },
      )

  -- A message of at least one byte that fills the page to its last byte, or passes it by one, is
  -- let through by the guard, and a byte is written behind the page.
  pub write_fortune-overflow :
      (from : List ℕ)
      → 0 < length from
      → page_size ≤ s.write_ind + length from
      → s.write_ind + length from ≤ page_size + 1
      → write_fortune 0 from s ≡ none
  unfolding write_fortune
  write_fortune-overflow from some_bytes past within =
      let test : ltb (space s) (length from) ≡ false =
        ltb_of_le (space s) (length from) (omega (arith, space-eq s room, room)) in
      rw (test, copied_block_all from)
        (elim (Option-cases (store s.write_ind from s.cookie_buffer)) [
          | inl e ↦ rw e
          | inr (buf, e) ↦ rw e (
              put_twice-none (s.write_ind + length from) b'\n' buf _
                (omega (arith, h.page, length-store s.write_ind from s.cookie_buffer buf e)))
        ])

  -- An empty message as the first one puts its line end in front of the page.
  pub write_fortune-empty : s.write_ind ≡ 0 → write_fortune 0 [] s ≡ none
  unfolding write_fortune
  write_fortune-empty first =
      let test : ltb (space s) 0 ≡ false = ltb_of_le (space s) 0 (omega arith) in
      rw (test, copied_block_all [], first)
        (elim (Option-cases (store 0 [] s.cookie_buffer)) [ inl e ↦ rw e | inr (buf, e) ↦ rw e ])
