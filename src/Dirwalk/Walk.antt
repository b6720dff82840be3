-- ===== src/Dirwalk/Walk.antt =====
-- lab_02/main.c: the walk over a directory tree, over any stack that keeps its promises.
pub mod Spec
pub mod Steps
pub mod Folder
pub mod Visit
pub mod Result
pub mod Count
pub mod Reordered
pub mod Heard
use os6_bmstu_iu.Common.{
  ℕ, zero, suc, ◌+◌, Bool, true, false, not, ◌&&◌, ◌||◌, Option, none, some, List, [], ◌∷◌, ◌++◌, ℤ,
  pos, negsuc, is_negative, suc_ℤ, to_ℕ, str_eq, ◌==◌, if◌then◌else◌, ◌>>=◌,
}
use os6_bmstu_iu.Dirwalk.Memory.{Elem}
use os6_bmstu_iu.Dirwalk.Stats.{Stats, zero_stats, s_ifdir, file_type, inc_stat, print_stat}
use os6_bmstu_iu.Dirwalk.Files.{
  Name, dot, dotdot, Access, Entries, names, Place, Cwd, lstat, opendir, chdir,
}
use os6_bmstu_iu.Dirwalk.Interface.{StackOps}

-- `FTW_FILE` and `FTW_DIR`
abbrev pub ftw_file : ℕ
ftw_file = 1

abbrev pub ftw_dir : ℕ
ftw_dir = 2

pub data Color : Type 0 where
  green cyan : Color

-- What the program prints on a line.
pub data Line : Type 0 where
  shown : (indent : ℕ) → Color → Name → Line
  no_opendir no_chdir no_readdir : Line

-- `function`: the name under an indent of `depth` marks.
unfoldable pub function : Name → ℕ → ℤ → List Line
function name type depth =
    if type == ftw_dir
    then shown (to_ℕ depth) green name ∷ []
    else if type == ftw_file
    then shown (to_ℕ depth) cyan name ∷ []
    else []

-- `S_ISDIR`
abbrev pub is_dir : ℕ → Bool
is_dir mode = file_type mode == s_ifdir

-- The result of a run: `fault` is a bad access in the stack.
pub data Run {ℓ} (A : Type ℓ) : Type ℓ where
  finished : A → Run A
  fault : Run A
  out_of_fuel : Run A

module _ (ops : StackOps) where
  open ops use {State, is_empty, push_new, pop_elem}

  -- The globals `stk` and `stats`, the working directory, the output, and whether the global
  -- `errno` is not 0: a call that fails sets it, and nothing resets it.
  pub record World : Type 0 where
    pub stk : State
    pub stats : Stats
    pub cwd : Cwd
    pub out : List Line
    pub errno : Bool

  -- The loop over `readdir`: it skips "." and "..".
  unfoldable pub read_entries : ℤ → List Name → State → Option State
  read_entries depth [] stk = some stk
  read_entries depth (n ∷ ns) stk =
      (if not (str_eq n dot) && not (str_eq n dotdot) then push_new n depth stk else some stk)
      >>= read_entries depth ns

module _ (ops : StackOps) (place : Place) where
  open ops use {State, is_empty, push_new, pop_elem}

  -- `do_path` on a directory that has been opened as `es` and entered as `cwd`.
  do_entries : ℤ → Access → Entries → Cwd → World ops → Option (ℤ × World ops)
  do_entries depth a es cwd w = do
    stk ← push_new dotdot (negsuc 0) w.stk
    stk ← read_entries ops (suc_ℤ depth) (names es) stk
    let errno = w.errno || not a.reads
    let out = if errno then w.out ++ (no_readdir ∷ []) else w.out
    some (
      if a.closes then pos 0 else negsuc 0,
      record w { stk = stk; cwd = cwd; out = out; errno = errno || not a.closes },
    )

  -- `do_path` on a directory.
  do_dir : Name → ℤ → World ops → Option (ℤ × World ops)
  unfolding do_entries
  do_dir full_path depth w =
      let w = record w {
        out = w.out ++ function full_path ftw_dir depth;
        stats = record (w.stats) { ndir = w.stats.ndir + 1 };
      } in
      elim (opendir place full_path w.cwd) [
        | none ↦ some (negsuc 0, record w { out = w.out ++ (no_opendir ∷ []); errno = true })
        | some (a, es) ↦ elim (chdir place full_path w.cwd) [
          | none ↦ some (negsuc 0, record w { out = w.out ++ (no_chdir ∷ []); errno = true })
          | some cwd ↦ do_entries depth a es cwd w
        ]
      ]

  -- The value of the `chdir` at a negative depth is not looked at.
  back : Name → World ops → World ops
  back full_path w = elim (chdir place full_path w.cwd) [
    | none ↦ record w { errno = true }
    | some cwd ↦ record w { cwd = cwd }
  ]

  -- `doPath`, with `function` for `func`; `none` is a fault.
  unfoldable pub do_path : Name → ℤ → World ops → Option (ℤ × World ops)
  unfolding do_dir back
  do_path full_path depth w =
      if is_negative depth
      then some (pos 0, back full_path w)
      else elim (lstat place full_path w.cwd) [
        | none ↦ some (negsuc 0, record w { errno = true })
        | some mode ↦
            if not (is_dir mode)
            then some (
              pos 0,
              record w {
                stats = inc_stat mode w.stats;
                out = w.out ++ function full_path ftw_file depth;
              },
            )
            else do_dir full_path depth w
      ]

  -- `while (!isEmpty(&stk)) { doPath(func, elem->fileName, elem->depth); elem = pop(&stk); }`
  unfoldable pub walk : ℕ → Elem → World ops → Run (World ops)
  walk zero elem w = out_of_fuel
  walk (suc k) elem w = elim (is_empty w.stk) [
    | true ↦ finished w
    | false ↦ elim (do_path elem.0 elem.1 w) [
      | none ↦ fault
      | some (rc, w) ↦ elim (pop_elem w.stk) [
        | none ↦ fault
        | some (elem, stk) ↦ walk k elem (record w { stk = stk })
      ]
    ]
  ]

  -- How the first two calls of `ftw` end: `chdir(pathName)` and `getcwd`.
  pub data Arrival : Type 0 where
    no_directory no_path arrived : Arrival

  -- The printing of the table, which ends the run.
  report : World ops → Run (ℤ × World ops × List (ℕ × ℕ))
  report w = elim (print_stat w.stats) [
    | none ↦ fault
    | some (stats, rows) ↦ finished (pos 0, record w { stats = stats }, rows)
  ]

  -- `ftw`: its value, the globals and the lines of the table. `elem` is the node of the start, of
  -- which `push` has left a copy in the stack.
  unfoldable pub ftw : Arrival → ℕ → World ops → Run (ℤ × World ops × List (ℕ × ℕ))
  unfolding report
  ftw no_directory fuel w = finished (negsuc 0, record w { errno = true }, [])
  ftw no_path fuel w = finished (negsuc 0, record w { errno = true }, [])
  ftw arrived fuel w = elim (push_new place.path (pos 0) w.stk) [
    | none ↦ fault
    | some stk ↦ elim (walk fuel (place.path, pos 0) (record w { stk = stk })) [
      | finished w ↦ report w
      | fault ↦ fault
      | out_of_fuel ↦ out_of_fuel
    ]
  ]

  -- `main`
  unfoldable pub main : (argc : ℕ) → Arrival → ℕ → World ops → Run (ℤ × World ops × List (ℕ × ℕ))
  unfolding ftw
  main argc a fuel w = if not (argc == 2) then finished (negsuc 0, w, []) else ftw a fuel w
