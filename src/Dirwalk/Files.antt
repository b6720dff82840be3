-- ===== src/Dirwalk/Files.antt =====
-- The part of the file system that lab_02/main.c sees, as the calls of POSIX show it: `lstat`,
-- `opendir`, `readdir`, `closedir` and `chdir`. The tree does not change during a walk.
use os6_bmstu_iu.Common.{ℕ, Bool, Option, none, some, List, [], ◌∷◌, codes, str_eq, if◌then◌else◌}

abbrev pub Name : Type 0
Name = List ℕ

abbrev pub dot : Name
dot = codes "."

abbrev pub dotdot : Name
dotdot = codes ".."

-- What the calls on a directory do.
pub record Access : Type 0 where
  pub opens : Bool  -- `opendir` succeeds
  pub enters : Bool  -- `chdir` into it succeeds
  pub reads : Bool  -- `readdir` gives all entries; if not, it sets `errno` at the end
  pub closes : Bool  -- `closedir` succeeds

mutual
  -- `missing` is a name on which `lstat` fails.
  pub data Tree : Type 0 where
    missing : Tree
    file : (mode : ℕ) → Tree
    dir : (mode : ℕ) → Access → Entries → Tree

  -- The entries that `readdir` returns, in its order; `here` is "." and `up` is "..".
  pub data Entries : Type 0 where
    end : Entries
    entry : Name → Tree → Entries → Entries
    here : Entries → Entries
    up : Entries → Entries

-- The `d_name` of each entry.
abbrev pub names : Entries → List Name
names end = []
names (entry n t es) = n ∷ names es
names (here es) = dot ∷ names es
names (up es) = dotdot ∷ names es

abbrev pub lookup : Name → Entries → Option Tree
lookup n end = none
lookup n (entry k t es) = if str_eq n k then some t else lookup n es
lookup n (here es) = lookup n es
lookup n (up es) = lookup n es

-- The directory at which a walk starts: its absolute path, its tree, and the directories above it.
pub record Place : Type 0 where
  pub path : Name
  pub tree : Tree
  pub above : List Entries

-- The working directory, with those above it.
abbrev pub Cwd : Type 0
Cwd = List Entries

-- ".." of the root is the root.
abbrev pub parent : Cwd → Cwd
parent [] = []
parent (c ∷ []) = c ∷ []
parent (c ∷ d ∷ r) = d ∷ r

abbrev in_cwd : Name → Cwd → Option Tree
in_cwd n [] = none
in_cwd n (c ∷ r) = lookup n c

abbrev pub mode_of : Tree → Option ℕ
mode_of missing = none
mode_of (file m) = some m
mode_of (dir m a es) = some m

abbrev pub enter : Tree → Cwd → Option Cwd
enter missing c = none
enter (file m) c = none
enter (dir m a es) c = if a.enters then some (es ∷ c) else none

abbrev pub opened : Tree → Option (Access × Entries)
opened missing = none
opened (file m) = none
opened (dir m a es) = if a.opens then some (a, es) else none

module _ (place : Place) where
  -- The absolute path names the start, any other name an entry of the working directory.
  abbrev pub resolve : Name → Cwd → Option Tree
  resolve n c = if str_eq n place.path then some place.tree else in_cwd n c

  unfoldable pub lstat : Name → Cwd → Option ℕ
  lstat n c = elim (resolve n c) [ none ↦ none | some t ↦ mode_of t ]

  unfoldable pub opendir : Name → Cwd → Option (Access × Entries)
  opendir n c = elim (resolve n c) [ none ↦ none | some t ↦ opened t ]

  unfoldable pub chdir : Name → Cwd → Option Cwd
  chdir n c =
      if str_eq n dotdot
      then some (parent c)
      else if str_eq n place.path
      then enter place.tree place.above
      else elim (in_cwd n c) [ none ↦ none | some t ↦ enter t c ]
