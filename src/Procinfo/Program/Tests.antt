-- ===== src/Procinfo/Program/Tests.antt =====
-- lab_04/part1: a process with one range of one page.
use os6_bmstu_iu.Common.{
  ℕ, ◌≡◌, ◌≢◌, ◌∙◌, not, ◌&&◌, ◌==◌, refl, ap, Bool, true, some, List, [], ◌∷◌, ◌++◌, ℤ, pos, codes,
  length, replicate, arith, str_eq, if◌then◌else◌,
}
use os6_bmstu_iu.Procinfo.{buf_size, done, Proc, title, lf, space, get_path}
use os6_bmstu_iu.Procinfo.Stat.{flatten}
use os6_bmstu_iu.Procinfo.Maps.Scan.{Without}
use os6_bmstu_iu.Procinfo.Maps.Hex.{print_hex, print_hex_in, hex_char}
use os6_bmstu_iu.Procinfo.Maps.Line.{MapLine, IsLine}
use os6_bmstu_iu.Procinfo.Maps.Lines.{maps_text}
use os6_bmstu_iu.Procinfo.Maps.Pages.{fprint_pagemap}
use os6_bmstu_iu.Procinfo.Maps.Whole.{all_rows, fprint_pagemap-rows}
use os6_bmstu_iu.Procinfo.Program.{Machine}
use os6_bmstu_iu.Procinfo.Program.Contents.{Contents}

abbrev all_without : ℕ → List ℕ → Bool
all_without c [] = true
all_without c (d ∷ s) = not (d == c) && all_without c s

without : (c : ℕ) (s : List ℕ) → all_without c s ≡ true → Without c s
without c [] h = tt
without c (d ∷ s) h = ((λ e. ground arith), without c s (ground arith))

abbrev first : List ℕ → ℕ
first [] = 0
first (c ∷ s) = c

slash : b'/' ≢ space
slash e = omega arith

abbrev one_page : MapLine
one_page = record {
  low = 4096;
  high = 8192;
  perms = codes "r--p";
  offset = codes "00000000";
  dev = codes "08:01";
  inode = codes "42";
  more_spaces = 2;
  name = codes "/a";
}

one_page-IsLine : IsLine one_page
one_page-IsLine = record {
  ordered = omega arith;
  no_wrap = omega arith;
  perms = (without space one_page.perms refl, without lf one_page.perms refl);
  offset = (without space one_page.offset refl, without lf one_page.offset refl);
  dev = (without space one_page.dev refl, without lf one_page.dev refl);
  inode = (without space one_page.inode refl, without lf one_page.inode refl);
  name_line = without lf one_page.name refl;
  name_zero = ((λ e. omega arith), ((λ e. omega arith), tt));
  name_start = λ c s e same. slash (ap first e ∙ same);
}

abbrev page_bytes : List ℕ
page_bytes = replicate 8 0 ++ (5 ∷ 0 ∷ 0 ∷ 0 ∷ 0 ∷ 0 ∷ 0 ∷ 128 ∷ [])

abbrev reads_all : (count offset : ℕ) → ℤ
reads_all count offset = pos count

one_page_text : length (maps_text (one_page ∷ [])) ≡ 38
unfolding print_hex print_hex_in hex_char
one_page_text = refl

fprint_pagemap-rows_example :
    fprint_pagemap reads_all page_bytes (maps_text (one_page ∷ [])) (replicate 50 7)
    ≡ done (
        title (get_path (codes "pagemap"))
        ++ (codes "addr pfn soft-dirty file/shared swapped present library"
            ++ (lf ∷ all_rows reads_all page_bytes (one_page ∷ []))))
fprint_pagemap-rows_example =
    fprint_pagemap-rows reads_all page_bytes (one_page ∷ []) (replicate 50 7) (one_page-IsLine, tt)
      (omega (arith, one_page_text))

abbrev maps_path : List ℕ
maps_path = codes "/proc/64361/maps"

abbrev file_of : List ℕ → List ℕ
file_of path = if str_eq path maps_path then maps_text (one_page ∷ []) else codes "7"

-- Every file but maps has one word, every directory one entry, and every link the same target.
abbrev quiet : Proc
quiet = record {
  read = λ path. some (file_of path);
  list = λ path. some (codes "0" ∷ []);
  link = λ path. some (codes "/a");
  appends = true;
}

abbrev names_of : List ℕ → List (List ℕ × List ℕ)
names_of name = (name, codes "") ∷ []

abbrev machine : Machine
machine = record {
  proc = quiet;
  creates = true;
  pagemap = some page_bytes;
  pread = reads_all;
  string = replicate 512 0;
  buffer = replicate buf_size 7;
  stat_meanings = flatten (names_of (codes "pid"));
  statm_meanings = flatten (names_of (codes "size"));
}

abbrev contents : Contents
contents = record {
  file = file_of;
  names = λ path. codes "0" ∷ [];
  target = λ path. codes "/a";
  stat = codes "7" ∷ [];
  stat_names = names_of (codes "pid");
  statm = codes "7" ∷ [];
  statm_names = names_of (codes "size");
  ranges = one_page ∷ [];
  pagemap = page_bytes;
  remains = [];
}
