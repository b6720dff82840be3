-- ===== src/Procinfo/Links.antt =====
-- lab_04/part1/main.c: the sections on directories and links.
pub mod Listed
use os6_bmstu_iu.Common.{
  ℕ, ◌-◌, ◌≤◌, ◌<◌, ◌≡◌, refl, ap, sym, ◌∙◌, Bool, true, false, ◌||◌, Bool-cases, inl, inr, Option,
  none, some, List, [], ◌∷◌, ◌++◌, append_assoc, append-nil, arith, length-take, length-append,
  lt→ltb, codes, length, take, drop, replicate, ltb, if◌then◌else◌, str_eq, c_string,
  c_string-append, c_string-none, NonZero, zeros_behind, take-NonZero, drop-NonZero, append-NonZero,
  drop-append_le, length-drop_suc, drop-le, take-le, length-replicate, ltb→lt,
}
use os6_bmstu_iu.Procinfo.{
  buf_size, Outcome, done, crashed, out_of_fuel, need, ◌>>=◌, Proc, title, get_path, get_proc_path,
  prepare_print, lf,
}

-- `%-23s` and `%4s`
abbrev pub pad_right : ℕ → List ℕ → List ℕ
pad_right n s = s ++ replicate (n - length s) (b' ')

abbrev pub pad_left : ℕ → List ℕ → List ℕ
pad_left n s = replicate (n - length s) (b' ') ++ s

-- The directory and the one above it, which the loops leave out.
abbrev pub is_dots : List ℕ → Bool
is_dots name = str_eq name (codes ".") || str_eq name (codes "..")

-- The loop of `infoFromFolder`.
abbrev pub folder_lines : List (List ℕ) → List ℕ
folder_lines [] = []
folder_lines (name ∷ names) =
    if is_dots name then folder_lines names else pad_right 23 name ++ (lf ∷ folder_lines names)

-- `infoFromFolder`: `readdir` needs the directory, and `fclose` the file.
unfoldable pub info_from_folder : Proc → List ℕ → Outcome (List ℕ)
info_from_folder k path = do
  (f_read, start) ← prepare_print k path
  names ← need (k.list path)
  opened ← need f_read
  done (start ++ folder_lines names)

-- `infoProcessFromFolder` and `infoGeneralFromFolder`
abbrev pub info_process_from_folder : Proc → List ℕ → Outcome (List ℕ)
info_process_from_folder k name = info_from_folder k (get_path name)

abbrev pub info_general_from_folder : Proc → List ℕ → Outcome (List ℕ)
info_general_from_folder k name = info_from_folder k (get_proc_path name)

-- `readlink` writes as much of the target as there is room for, and no zero; nothing if it fails.
unfoldable pub readlink : Option (List ℕ) → List ℕ → List ℕ
readlink none buf = buf
readlink (some target) buf = let part = take (length buf) target in part ++ drop (length part) buf

-- `infoProcessFromFileLink`
unfoldable pub info_process_from_file_link : Proc → List ℕ → Outcome (List ℕ)
info_process_from_file_link k name = do
  (f_read, start) ← prepare_print k (get_path name)
  text ← need (c_string (readlink (k.link (get_path name)) (replicate buf_size 0)))
  opened ← need f_read
  done (start ++ text)

-- `fprintf(f_out, "{%4s} -- %s\n", …)`
abbrev pub link_line : List ℕ → List ℕ → List ℕ
link_line name target = b'{' ∷ (pad_left 4 name ++ (codes "} -- " ++ (target ++ (lf ∷ []))))

-- The loop of `infoProcessFromFolderLink` over the names, with what stands in `string`.
unfoldable pub link_lines :
    Proc → (path : List ℕ) → List (List ℕ) → (string : List ℕ) → Outcome (List ℕ)
link_lines k path [] string = done []
link_lines k path (name ∷ names) string =
    let buf = path ++ (b'/' ∷ name) in
    let string' = readlink (k.link buf) string in
    let skipped = link_lines k path names string in
    let more = link_lines k path names string' in
    if is_dots name
    then skipped
    else if ltb (length buf) buf_size
    then (need (c_string string') >>= λ target.
        more >>= λ rest. done (link_line name target ++ rest))
    else crashed

-- `infoProcessFromFolderLink`, with what the memory of `string` held.
unfoldable pub info_process_from_folder_link : Proc → List ℕ → (string : List ℕ) → Outcome (List ℕ)
info_process_from_folder_link k name string = do
  (f_read, start) ← prepare_print k (get_path name)
  names ← need (k.list (get_path name))
  text ← link_lines k (get_path name) names string
  opened ← need f_read
  done (start ++ text)

-- A target that ends before a zero of the buffer.
readlink-zero :
    (target buf rest : List ℕ)
    → drop (length target) buf ≡ 0 ∷ rest
    → readlink (some target) buf ≡ target ++ (0 ∷ rest)
unfolding readlink
readlink-zero target buf rest e =
    let whole : take (length buf) target ≡ target =
      take-le target (length buf) (omega (arith, length-drop_suc (length target) buf rest e)) in
    rw (whole, e) refl

string_read :
    (target buf rest : List ℕ)
    → drop (length target) buf ≡ 0 ∷ rest
    → NonZero target
    → c_string (readlink (some target) buf) ≡ some target
string_read target buf rest e real =
    ap c_string (readlink-zero target buf rest e) ∙ c_string-append target rest real

-- A target that fills the buffer.
no_end :
    (buf target : List ℕ)
    → length buf ≤ length target
    → NonZero target
    → c_string (readlink (some target) buf) ≡ none
unfolding readlink
no_end buf target le real =
    let whole : drop (length (take (length buf) target)) buf ≡ [] =
      drop-le _ buf (omega (arith, length-take (length buf) target)) in
    rw (whole, append-nil (take (length buf) target))
      (c_string-none _ (take-NonZero (length buf) target real))

-- What infoProcessFromFileLink writes: behind the title the target, if it is shorter than the buffer
-- of 2048 bytes; otherwise the string in the buffer has no end.
pub info_process_from_file_link-target :
    (k : Proc) (name file target : List ℕ)
    → k.appends ≡ true
    → k.read (get_path name) ≡ some file
    → k.link (get_path name) ≡ some target
    → NonZero target
    → info_process_from_file_link k name
      ≡ (if ltb (length target) buf_size then done (title (get_path name) ++ target) else crashed)
unfolding info_process_from_file_link prepare_print readlink
info_process_from_file_link-target k name file target opens reads links real =
    let buf : List ℕ = replicate buf_size 0 in
    let size : length buf ≡ buf_size = length-replicate {A = ℕ} buf_size 0 in
    elim (Bool-cases (ltb (length target) buf_size)) [
      | inl short ↦
          let lt : length target < buf_size = ltb→lt _ _ short in
          let read = string_read target buf _ (zeros_behind buf_size target lt) real in
          rw (opens, reads, links, read, short) refl
      | inr long ↦
          let le : length buf ≤ length target = ground (arith, long, size) in
          rw (opens, reads, links, no_end buf target le real, long) refl
    ]

-- A target over a longer one, which ends in the buffer: the end of the longer one is left behind it.
readlink-stale :
    (old new rest : List ℕ)
    → NonZero old
    → NonZero new
    → length new ≤ length old
    → c_string (readlink (some new) (old ++ (0 ∷ rest))) ≡ some (new ++ drop (length new) old)
unfolding readlink
readlink-stale old new rest h h' le =
    let whole : take (length (old ++ (0 ∷ rest))) new ≡ new =
      take-le new _ (omega (arith, length-append old (0 ∷ rest))) in
    let left : drop (length new) (old ++ (0 ∷ rest)) ≡ drop (length new) old ++ (0 ∷ rest) =
      drop-append_le (length new) old (0 ∷ rest) le in
    rw (whole, left, sym (append_assoc new (drop (length new) old) (0 ∷ rest)))
      (c_string-append (new ++ drop (length new) old) rest
        (append-NonZero new _ h' (drop-NonZero (length new) old h)))

gather :
    (x y : List ℕ) (o : Outcome (List ℕ))
    → ((o >>= λ r. done (y ++ r)) >>= λ r. done (x ++ r)) ≡ (o >>= λ r. done (x ++ (y ++ r)))
gather x y (done r) = refl
gather x y crashed = refl
gather x y out_of_fuel = refl

-- In the list of descriptors a link is followed by the end of the longer one before it: readlink puts
-- no zero behind what it writes, so the first link is shown right if a zero stood behind it, and the
-- second one has the end of the first.
pub link_lines-stale :
    (k : Proc) (path a b old new string rest : List ℕ) (names : List (List ℕ))
    → k.link (path ++ (b'/' ∷ a)) ≡ some old
    → k.link (path ++ (b'/' ∷ b)) ≡ some new
    → is_dots a ≡ false
    → is_dots b ≡ false
    → length (path ++ (b'/' ∷ a)) < buf_size
    → length (path ++ (b'/' ∷ b)) < buf_size
    → NonZero old
    → NonZero new
    → drop (length old) string ≡ 0 ∷ rest
    → length new ≤ length old
    → link_lines k path (a ∷ b ∷ names) string ≡ (
        link_lines k path names (readlink (some new) (old ++ (0 ∷ rest))) >>= λ more.
        done (link_line a old ++ (link_line b (new ++ drop (length new) old) ++ more)))
unfolding link_lines
link_lines-stale k path a b old new string rest names la lb da db sa sb real_old real_new end le =
    let first = readlink-zero old string rest end in
    let fits_a = lt→ltb _ _ sa in
    let fits_b = lt→ltb _ _ sb in
    let string_a = c_string-append old rest real_old in
    let string_b = readlink-stale old new rest real_old real_new le in
    rw (da, fits_a, la, first, string_a, db, fits_b, lb, string_b)
      (gather (link_line a old) (link_line b (new ++ drop (length new) old))
        (link_lines k path names (readlink (some new) (old ++ (0 ∷ rest)))))
