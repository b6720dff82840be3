-- ===== src/Procinfo/Files.antt =====
-- lab_04/part1/main.c: what infoFromFile copies.
use os6_bmstu_iu.Common.{
  ℕ, suc, ◌-◌, ◌≤◌, ◌<◌, ◌≡◌, ◌≢◌, refl, ap, ◌∙◌, true, false, Bool-cases, inl, inr, none, some,
  List, [], ◌∷◌, ◌++◌, append-nil, arith, length, take, drop, replicate, map, is_nil, ltb,
  if◌then◌else◌, c_string, c_string-append, NonZero, take-le, length-take, length-replicate,
  c_string-none, drop-le, zeros_behind, ltb→lt,
}
use os6_bmstu_iu.Procinfo.{
  buf_size, done, crashed, need, ◌>>=◌, Proc, title, prepare_print, line_end, copy, info_from_file,
}

line_end-nonzero : (c : ℕ) → line_end c ≢ 0
line_end-nonzero c e = ground arith

map-NonZero : (file : List ℕ) → NonZero (map line_end file)
map-NonZero [] = tt
map-NonZero (c ∷ file) = (line_end-nonzero c, map-NonZero file)

-- One round that reads something.
copy-round :
    (n : ℕ) (left buf chunk buf' rest : List ℕ)
    → take (length buf) left ≡ chunk
    → drop (length buf) left ≡ rest
    → is_nil chunk ≡ false
    → map line_end chunk ++ drop (length chunk) buf ≡ buf'
    → copy (suc n) left buf
      ≡ (need (c_string buf') >>= λ text. copy n rest buf' >>= λ more. done (text ++ more))
unfolding copy
copy-round n left buf chunk buf' rest e1 e2 e3 e4 = rw (e1, e2, e3, e4)

copy-done : (n : ℕ) (buf : List ℕ) → copy (suc n) [] buf ≡ done []
unfolding copy
copy-done n buf =
    let nothing : take {A = ℕ} (length buf) [] ≡ [] = take-le [] (length buf) (omega arith) in
    rw nothing

-- A file that leaves room for the zero of the buffer.
copy-short :
    (n : ℕ) (size : ℕ) (file : List ℕ)
    → length file < size
    → copy (suc (suc n)) file (replicate size 0) ≡ done (map line_end file)
copy-short n size [] lt = copy-done (suc n) (replicate size 0)
copy-short n size (c ∷ file) lt =
    let all = c ∷ file in
    let zeros = replicate (size - length all - 1) 0 in
    let taken : take (length (replicate size 0)) all ≡ all =
      take-le all _ (omega (arith, length-replicate {A = ℕ} size 0)) in
    let nothing_left : drop (length (replicate size 0)) all ≡ [] =
      drop-le _ all (omega (arith, length-replicate {A = ℕ} size 0)) in
    let string : c_string (map line_end all ++ (0 ∷ zeros)) ≡ some (map line_end all) =
      c_string-append (map line_end all) zeros (map-NonZero all) in
    copy-round (suc n) all (replicate size 0) all (map line_end all ++ (0 ∷ zeros)) [] taken
      nothing_left refl (ap (λ z. map line_end all ++ z) (zeros_behind size all lt))
    ∙ rw (string, copy-done n (map line_end all ++ (0 ∷ zeros)))
        (ap done (append-nil (map line_end all)))

-- A file that fills the buffer.
copy-long :
    (n : ℕ) (size : ℕ) (file : List ℕ)
    → 0 < size
    → size ≤ length file
    → copy (suc n) file (replicate size 0) ≡ crashed
copy-long n size file lt le =
    let buf = replicate size 0 in
    let chunk = take (length buf) file in
    let whole : length chunk ≡ size =
      omega (arith, length-take (length buf) file, length-replicate {A = ℕ} size 0) in
    let no_room : drop (length chunk) buf ≡ [] =
      drop-le (length chunk) buf (omega (arith, length-replicate {A = ℕ} size 0)) in
    let no_end : c_string (map line_end chunk) ≡ none =
      c_string-none (map line_end chunk) (map-NonZero chunk) in
    copy-round n file buf chunk (map line_end chunk) (drop (length buf) file) refl refl
      (not_nil chunk (omega arith))
      (ap (λ z. map line_end chunk ++ z) no_room ∙ append-nil (map line_end chunk))
    ∙ rw no_end
  where
    not_nil : (xs : List ℕ) → 0 < length xs → is_nil xs ≡ false
    not_nil [] h = absurd (omega arith)
    not_nil (x ∷ xs) h = refl

-- What infoFromFile writes for a file: behind the title the whole file, each of its zeros as a line
-- end, if it is shorter than the buffer of 2048 bytes; otherwise the string in the buffer has no end.
pub info_from_file-copies :
    (k : Proc) (path file : List ℕ)
    → k.appends ≡ true
    → k.read path ≡ some file
    → info_from_file k path
      ≡ (if ltb (length file) buf_size then done (title path ++ map line_end file) else crashed)
unfolding info_from_file prepare_print
info_from_file-copies k path file opens reads = elim (Bool-cases (ltb (length file) buf_size)) [
  | inl short ↦
      let text : copy (suc (suc (length file))) file (replicate buf_size 0)
          ≡ done (map line_end file) =
        copy-short (length file) buf_size file (ltb→lt _ _ short) in
      rw (opens, reads, short, text)
  | inr long ↦
      let crash : copy (suc (suc (length file))) file (replicate buf_size 0) ≡ crashed =
        copy-long (suc (length file)) buf_size file (omega arith) (ground (arith, long)) in
      rw (opens, reads, long, crash)
]
