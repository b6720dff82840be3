-- ===== src/Procinfo/Program/Contents.antt =====
-- lab_04/part1/main.c: what a process shows in /proc, and the sections that the program is to write.
use os6_bmstu_iu.Common.{
  ℕ, ◌≡◌, ◌≤◌, ◌<◌, true, some, List, [], ◌∷◌, ◌++◌, codes, length, map, NonZero,
}
use os6_bmstu_iu.Procinfo.{buf_size, title, line_end, get_path, get_proc_path}
use os6_bmstu_iu.Procinfo.Stat.{flatten, table, join, AreWords}
use os6_bmstu_iu.Procinfo.Links.{folder_lines}
use os6_bmstu_iu.Procinfo.Links.Listed.{padded, AreShort, shown_links}
use os6_bmstu_iu.Procinfo.Maps.Line.{MapLine}
use os6_bmstu_iu.Procinfo.Maps.Lines.{maps_text, AreLines}
use os6_bmstu_iu.Procinfo.Program.{Machine}

-- What the files, directories and links of /proc hold, the words of stat and statm with their
-- names, the ranges of maps, the page map, and the string that stood in the memory for the links of
-- the descriptors.
pub record Contents : Type 0 where
  pub file : List ℕ → List ℕ
  pub names : List ℕ → List (List ℕ)
  pub target : List ℕ → List ℕ
  pub stat : List (List ℕ)
  pub stat_names : List (List ℕ × List ℕ)
  pub statm : List (List ℕ)
  pub statm_names : List (List ℕ × List ℕ)
  pub ranges : List MapLine
  pub pagemap : List ℕ
  pub remains : List ℕ

-- A machine on which the program can read all of this: every file and target is shorter than the
-- buffer, a descriptor's target than its buffer of 512 bytes, the paths of the descriptors fit, and
-- there are as many names as words.
pub record IsReadable (m : Machine) (c : Contents) : Type 0 where
  pub creates : m.creates ≡ true
  pub appends : m.proc.appends ≡ true
  pub reads : (path : List ℕ) → m.proc.read path ≡ some (c.file path)
  pub short : (path : List ℕ) → length (c.file path) < buf_size
  pub lists : (path : List ℕ) → m.proc.list path ≡ some (c.names path)
  pub links : (path : List ℕ) → m.proc.link path ≡ some (c.target path)
  pub short_link : (path : List ℕ) → length (c.target path) < buf_size
  pub real_link : (path : List ℕ) → NonZero (c.target path)
  pub fd_memory : m.string ≡ padded 512 c.remains
  pub short_remains : length c.remains < 512
  pub real_remains : NonZero c.remains
  pub short_fd : (name : List ℕ) → length (c.target (get_path (codes "fd") ++ (b'/' ∷ name))) < 512
  pub fd_paths : AreShort (get_path (codes "fd")) (c.names (get_path (codes "fd")))
  pub stat_words : c.file (get_path (codes "stat")) ≡ join c.stat
  pub stat_are : AreWords c.stat
  pub stat_named : length c.stat ≤ length c.stat_names
  pub stat_table : m.stat_meanings ≡ flatten c.stat_names
  pub statm_words : c.file (get_path (codes "statm")) ≡ join c.statm
  pub statm_are : AreWords c.statm
  pub statm_named : length c.statm ≤ length c.statm_names
  pub statm_table : m.statm_meanings ≡ flatten c.statm_names
  pub maps : c.file (get_path (codes "maps")) ≡ maps_text c.ranges
  pub maps_are : AreLines c.ranges
  pub room : length m.buffer ≡ buf_size
  pub pages : m.pagemap ≡ some c.pagemap

module _ (c : Contents) where
  abbrev pub of_process : List ℕ → List ℕ
  of_process name = title (get_path name) ++ map line_end (c.file (get_path name))

  abbrev pub general : List ℕ → List ℕ
  general name = title (get_proc_path name) ++ map line_end (c.file (get_proc_path name))

  abbrev pub folder : List ℕ → List ℕ
  folder path = title path ++ folder_lines (c.names path)

  abbrev pub link_to : List ℕ → List ℕ
  link_to name = title (get_path name) ++ c.target (get_path name)

  -- The sections in their order.
  abbrev pub whole : List (List ℕ)
  whole =
      of_process (codes "environ")
      ∷ of_process (codes "cmdline")
      ∷ (title (get_path (codes "fd"))
          ++ shown_links c.target (get_path (codes "fd")) (c.names (get_path (codes "fd")))
              c.remains)
      ∷ (title (get_path (codes "stat")) ++ table c.stat_names c.stat)
      ∷ (title (get_path (codes "statm")) ++ table c.statm_names c.statm)
      ∷ of_process (codes "io")
      ∷ link_to (codes "cwd")
      ∷ link_to (codes "exe")
      ∷ link_to (codes "root")
      ∷ of_process (codes "comm")
      ∷ folder (get_path (codes "task"))
      ∷ general (codes "filesystems")
      ∷ folder (get_proc_path (codes "fs"))
      ∷ general (codes "interrupts")
      ∷ general (codes "ioports")
      ∷ general (codes "modules")
      ∷ of_process (codes "maps")
      ∷ of_process (codes "smaps")
      ∷ []

-- The texts one behind the other.
abbrev pub concat : List (List ℕ) → List ℕ
concat [] = []
concat (t ∷ ts) = t ++ concat ts
