-- ===== src/Procinfo/Program.antt =====
-- lab_04/part1/main.c: the whole program, which writes one section after the other.
pub mod Contents
pub mod Readable
mod Tests
use os6_bmstu_iu.Common.{
  ℕ, Bool, true, false, not, Option, none, some, List, [], ◌∷◌, ◌++◌, ℤ, codes, if◌then◌else◌,
}
use os6_bmstu_iu.Procinfo.{
  Outcome, done, crashed, out_of_fuel, ◌>>=◌, Proc, get_path, info_process_from_file,
  info_general_from_file,
}
use os6_bmstu_iu.Procinfo.Stat.{info_process_stat}
use os6_bmstu_iu.Procinfo.Links.{
  info_process_from_folder, info_general_from_folder, info_process_from_file_link,
  info_process_from_folder_link,
}
use os6_bmstu_iu.Procinfo.Maps.Pages.{fprint_pagemap}

-- What the program runs on: /proc, the page map with its `pread`, what the memory of `string` and
-- `buffer` held, whether the output can be created, and the two tables of names.
pub record Machine : Type 0 where
  pub proc : Proc
  pub creates : Bool
  pub pagemap : Option (List ℕ)
  pub pread : (count offset : ℕ) → ℤ
  pub string : List ℕ
  pub buffer : List ℕ
  pub stat_meanings : List (List ℕ)
  pub statm_meanings : List (List ℕ)

-- `exit(-1)`
abbrev pub failure : ℕ
failure = 255

-- `infoPagemap`: the status of an exit, if there is one, and what is written.
unfoldable pub info_pagemap : Machine → Outcome (ℕ × List ℕ)
info_pagemap m =
    if not m.proc.appends
    then done (failure, [])
    else elim (m.proc.read (get_path (codes "maps"))) [
      | none ↦ done (failure, [])
      | some maps ↦ elim m.pagemap [
        | none ↦ done (failure, [])
        | some pagemap ↦ fprint_pagemap m.pread pagemap maps m.buffer >>= λ text. done (0, text)
      ]
    ]

-- One section behind the other.
abbrev pub in_order : List (Outcome (List ℕ)) → Outcome (List ℕ)
in_order [] = done []
in_order (section ∷ more) = section >>= λ text. in_order more >>= λ rest. done (text ++ rest)

-- The sections of `main` before the page map.
unfoldable pub sections : Machine → List (Outcome (List ℕ))
sections m =
    info_process_from_file m.proc (codes "environ")
    ∷ info_process_from_file m.proc (codes "cmdline")
    ∷ info_process_from_folder_link m.proc (codes "fd") m.string
    ∷ info_process_stat m.proc (codes "stat") m.stat_meanings
    ∷ info_process_stat m.proc (codes "statm") m.statm_meanings
    ∷ info_process_from_file m.proc (codes "io")
    ∷ info_process_from_file_link m.proc (codes "cwd")
    ∷ info_process_from_file_link m.proc (codes "exe")
    ∷ info_process_from_file_link m.proc (codes "root")
    ∷ info_process_from_file m.proc (codes "comm")
    ∷ info_process_from_folder m.proc (codes "task")
    ∷ info_general_from_file m.proc (codes "filesystems")
    ∷ info_general_from_folder m.proc (codes "fs")
    ∷ info_general_from_file m.proc (codes "interrupts")
    ∷ info_general_from_file m.proc (codes "ioports")
    ∷ info_general_from_file m.proc (codes "modules")
    ∷ info_process_from_file m.proc (codes "maps")
    ∷ info_process_from_file m.proc (codes "smaps")
    ∷ []

-- `main`: its status, and what is in the output.
unfoldable pub main : Machine → Outcome (ℕ × List ℕ)
main m =
    if not m.creates
    then done (failure, [])
    else (in_order (sections m) >>= λ text.
        info_pagemap m >>= λ last. done (last.0, text ++ last.1))
