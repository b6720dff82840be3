-- ===== src/Procinfo/Tests.antt =====
-- lab_04/part1: sections on a small /proc.
use os6_bmstu_iu.Common.{
  ℕ, ◌≡◌, refl, true, some, List, [], ◌∷◌, ◌++◌, codes, map, arith, ltb, leb, replicate,
  if◌then◌else◌, str_eq, ◌==◌, NonZero-all, Bool, not, ◌&&◌,
}
use os6_bmstu_iu.Procinfo.{
  buf_size, done, crashed, ◌>>=◌, Proc, title, space, line_end, get_path, info_from_file,
}
use os6_bmstu_iu.Procinfo.Files.{info_from_file-copies}
use os6_bmstu_iu.Procinfo.Stat.{Plain, info_process_stat, flatten, table, info_process_stat-join}
use os6_bmstu_iu.Procinfo.Links.{link_line, link_lines, readlink, link_lines-stale}

-- No byte is zero or a space.
abbrev all_plain : List ℕ → Bool
all_plain [] = true
all_plain (c ∷ s) = not (c == space) && (not (c == 0) && all_plain s)

plain : (s : List ℕ) → all_plain s ≡ true → Plain s
plain [] h = tt
plain (c ∷ s) h = ((λ e. ground arith), (λ e. ground arith), plain s (ground arith))

abbrev here : List ℕ
here = codes "/proc/64361/"

-- Every file has two words, and every link but the first descriptor a short target.
abbrev small : Proc
small = record {
  read = λ path. some (codes "1 (sh)");
  list = λ path. some (codes "0" ∷ codes "1" ∷ []);
  link = λ path.
      if str_eq path (here ++ codes "fd/0") then some (codes "/dev/null") else some (codes "/a");
  appends = true;
}

info_from_file-copies_example : info_from_file small (here ++ codes "comm") ≡ (
    if ltb 6 buf_size
    then done (title (here ++ codes "comm") ++ map line_end (codes "1 (sh)"))
    else crashed)
info_from_file-copies_example =
    info_from_file-copies small (here ++ codes "comm") (codes "1 (sh)") refl refl

abbrev two_words : List (List ℕ)
two_words = codes "1" ∷ codes "(sh)" ∷ []

abbrev two_names : List (List ℕ × List ℕ)
two_names = (codes "pid", codes "number") ∷ (codes "comm", codes "name") ∷ []

info_process_stat-join_example : info_process_stat small (codes "stat") (flatten two_names) ≡ (
    if leb 2 2
    then done (title (get_path (codes "stat")) ++ table two_names two_words)
    else crashed)
info_process_stat-join_example =
    info_process_stat-join small (codes "stat") two_names two_words refl refl (omega arith)
      ((refl, plain (codes "1") refl), ((refl, plain (codes "(sh)") refl), tt))

-- The second descriptor is shown as "/aev/null".
link_lines-stale_example :
    link_lines small (here ++ codes "fd") (codes "0" ∷ codes "1" ∷ []) (replicate 12 0) ≡ (
      link_lines small
        (here ++ codes "fd")
        []
        (readlink (some (codes "/a")) (codes "/dev/null" ++ (0 ∷ 0 ∷ 0 ∷ [])))
      >>= λ more. done (
          link_line (codes "0") (codes "/dev/null")
          ++ (link_line (codes "1") (codes "/aev/null") ++ more)))
link_lines-stale_example =
    link_lines-stale small (here ++ codes "fd") (codes "0") (codes "1") (codes "/dev/null")
      (codes "/a") (replicate 12 0) (0 ∷ 0 ∷ []) [] refl refl refl refl (omega arith) (omega arith)
      (NonZero-all (codes "/dev/null") refl) (NonZero-all (codes "/a") refl) refl (omega arith)
