-- ===== src/Fortune/Seqfile.antt =====
-- lab_04/part2/seqfile.c: the same fortunes behind a seq_file. A result of `none` is an access
-- outside of the buffer.
pub mod Show
use os6_bmstu_iu.Common.{
  ℕ, suc, ◌+◌, ◌-◌, ◌%◌, ◌^◌, ◌≤◌, ◌<◌, ◌≡◌, ◌≢◌, refl, ap, sym, ◌∙◌, subst, true, false, Option,
  none, some, inl, inr, List, [], ◌∷◌, ◌++◌, append-nil, append_assoc, ℤ, pos, arith, ltb, leb,
  ◌==◌, if◌then◌else◌, leb_of_lt, le→leb, lt→ltb, length, length-append, drop, replicate, ◌>>=◌,
  Option-cases, Bool-cases,
}
use os6_bmstu_iu.Fortune.Buffer.{
  page_size, store, put, c_string, copied_block, drop-append, NonZero,
}
use os6_bmstu_iu.Fortune.Cookie.{Fortune, enospc, efault, put_before, write_fortune}
use os6_bmstu_iu.Fortune.Cookie.Shape.{encode, Holds, write_ind-free}
use os6_bmstu_iu.Fortune.Cookie.Read.{text_at, length-encode}

-- `buffer`, `readInd` and `writeInd`
pub record SeqFortune : Type 0 where
  pub buffer : List ℕ
  pub read_ind : ℕ
  pub write_ind : ℕ

-- `COOKIE_MAX_BUF_SIZE - writeInd + 1`, in `unsigned long`.
abbrev seq_space : SeqFortune → ℕ
seq_space s = (page_size + 2 ^ 64 - s.write_ind + 1) % 2 ^ 64

-- `writeFortune`
unfoldable pub seq_write : (uncopied : ℕ) → List ℕ → SeqFortune → Option (ℤ × SeqFortune)
seq_write uncopied from s =
    let len = length from in
    if ltb (seq_space s) len then some (enospc, s) else do
      buf ← store s.write_ind (copied_block uncopied from) s.buffer
      if ltb 0 uncopied then some (efault, record s { buffer = buf }) else do
        let write_ind = s.write_ind + len
        buf ← put_before write_ind b'\n' buf
        buf ← put write_ind 0 buf
        some (pos len, record s { buffer = buf; write_ind = write_ind + 1 })

-- `showFortune`, where `seq_printf` gives what a format without arguments prints.
unfoldable pub show_fortune :
    (seq_printf : List ℕ → Option (List ℕ)) → SeqFortune → Option (List ℕ × SeqFortune)
show_fortune seq_printf s = do
  measured ← c_string (drop s.read_ind s.buffer)
  let len = length measured
  let start = if leb s.write_ind s.read_ind then 0 else s.read_ind
  format ← c_string (drop start s.buffer)
  out ← seq_printf format
  some (out, record s { read_ind = if ltb 0 len then start + (len + 1) else start })

-- The state of fortune.c with the same fortunes.
abbrev pub plain : SeqFortune → Fortune
plain s = record {
  cookie_buffer = s.buffer;
  tmp_buffer = replicate page_size 0;
  read_ind = s.read_ind;
  write_ind = s.write_ind;
}

-- No byte is a `%`.
abbrev pub Plain : List ℕ → Type 0
Plain [] = Unit {0}
Plain (b ∷ bs) = (b ≢ b'%') × Plain bs

-- A format without `%` is printed as it is.
abbrev pub PrintsPlain : (List ℕ → Option (List ℕ)) → Type 0
PrintsPlain seq_printf = (text : List ℕ) → Plain text → seq_printf text ≡ some text
