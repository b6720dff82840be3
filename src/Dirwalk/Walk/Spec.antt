-- ===== src/Dirwalk/Walk/Spec.antt =====
-- What a walk should print and count, by recursion on the tree: a directory before its entries,
-- and of the entries the last one first. Each message on `readdir` depends on all the calls before
-- it, as `errno` is not reset.
use os6_bmstu_iu.Common.{
  ℕ, suc, ◌+◌, ◌<◌, ◌≡◌, Bool, true, false, not, ◌||◌, some, List, [], ◌∷◌, ◌++◌, pos, length,
  str_eq, if◌then◌else◌,
}
use os6_bmstu_iu.Dirwalk.Memory.{Elem}
use os6_bmstu_iu.Dirwalk.Stack.{max_name}
use os6_bmstu_iu.Dirwalk.Stats.{Stats, inc_stat}
use os6_bmstu_iu.Dirwalk.Files.{
  Name, dot, dotdot, Access, Tree, missing, file, dir, Entries, end, entry, here, up, lookup,
}
use os6_bmstu_iu.Dirwalk.Walk.{Line, shown, green, cyan, no_opendir, no_chdir, no_readdir, is_dir}

-- Whether `errno` is set after a walk that began with `e`.
unfoldable mutual
  pub fails : Tree → Bool → Bool
  fails missing e = true
  fails (file m) e = e
  fails (dir m a es) e =
      if a.opens
      then if a.enters then fails_all es ((e || not a.reads) || not a.closes) else true
      else true

  pub fails_all : Entries → Bool → Bool
  fails_all end e = e
  fails_all (entry n t es) e = fails t (fails_all es e)
  fails_all (here es) e = fails_all es e
  fails_all (up es) e = fails_all es e

-- The lines that stand for the result of the calls on a directory.
abbrev pub around : Bool → Access → List Line → List Line
around e a body =
    if a.opens
    then if a.enters
      then (if e || not a.reads then no_readdir ∷ [] else []) ++ body
      else no_chdir ∷ []
    else no_opendir ∷ []

unfoldable mutual
  pub listing : Bool → ℕ → Name → Tree → List Line
  listing e d n missing = []
  listing e d n (file m) = shown d cyan n ∷ []
  listing e d n (dir m a es) =
      shown d green n ∷ around e a (listings ((e || not a.reads) || not a.closes) (d + 1) es)

  pub listings : Bool → ℕ → Entries → List Line
  listings e d end = []
  listings e d (entry n t es) = listings e d es ++ listing (fails_all es e) d n t
  listings e d (here es) = listings e d es
  listings e d (up es) = listings e d es

-- The counters after a walk that began with `s`.
unfoldable mutual
  pub tally : Tree → Stats → Stats
  tally missing s = s
  tally (file m) s = inc_stat m s
  tally (dir m a es) s =
      let s' = record s { ndir = s.ndir + 1 } in
      if a.opens then if a.enters then tallies es s' else s' else s'

  pub tallies : Entries → Stats → Stats
  tallies end s = s
  tallies (entry n t es) s = tally t (tallies es s)
  tallies (here es) s = tallies es s
  tallies (up es) s = tallies es s

-- The fuel for a tree and `k` more rounds.
unfoldable mutual
  pub rounds : Tree → ℕ → ℕ
  rounds missing k = suc k
  rounds (file m) k = suc k
  rounds (dir m a es) k = suc (if a.opens then if a.enters then rounds_all es (suc k) else k else k)

  pub rounds_all : Entries → ℕ → ℕ
  rounds_all end k = k
  rounds_all (entry n t es) k = rounds_all es (rounds t k)
  rounds_all (here es) k = rounds_all es k
  rounds_all (up es) k = rounds_all es k

-- How many elements the stack may gain.
unfoldable mutual
  pub room : Tree → ℕ
  room missing = 0
  room (file m) = 0
  room (dir m a es) = suc (rooms es)

  pub rooms : Entries → ℕ
  rooms end = 0
  rooms (entry n t es) = suc (room t + rooms es)
  rooms (here es) = rooms es
  rooms (up es) = rooms es

-- The elements that the entries of a directory put on the stack, the top first.
abbrev pub items : ℕ → Entries → List Elem
items d end = []
items d (entry n t es) = items d es ++ ((n, pos d) ∷ [])
items d (here es) = items d es
items d (up es) = items d es

-- A name that an entry of a directory can have, and that a node of the stack can hold.
pub record IsName (path n : Name) : Type 0 where
  pub fits : length n < max_name
  pub not_dot : str_eq n dot ≡ false
  pub not_dotdot : str_eq n dotdot ≡ false
  pub not_path : str_eq n path ≡ false

-- Each directory's entries have names of their own, and `lstat` tells directories from files.
module _ (path : Name) where
  unfoldable mutual
    pub IsTree : Tree → Type 0
    IsTree missing = Unit {0}
    IsTree (file m) = is_dir m ≡ false
    IsTree (dir m a es) = (is_dir m ≡ true) × AreEntries es es

    pub AreEntries : Entries → Entries → Type 0
    AreEntries all end = Unit {0}
    AreEntries all (entry n t es) =
        IsName path n × (lookup n all ≡ some t) × IsTree t × AreEntries all es
    AreEntries all (here es) = AreEntries all es
    AreEntries all (up es) = AreEntries all es
