-- ===== src/Dirwalk/Walk/Steps.antt =====
-- One round of the walk of lab_02/main.c, for each kind of element.
use os6_bmstu_iu.Common.{
  ℕ, suc, ◌+◌, ◌≤◌, ◌≡◌, refl, Bool, true, false, not, ◌||◌, none, some, List, [], ◌∷◌, ◌++◌, ℤ,
  pos, negsuc, length, if◌then◌else◌, arith, append_assoc, append-nil, sym,
}
use os6_bmstu_iu.Dirwalk.Memory.{Elem}
use os6_bmstu_iu.Dirwalk.Stats.{inc_stat}
use os6_bmstu_iu.Dirwalk.Files.{
  Name, dotdot, Access, Tree, missing, file, dir, Entries, end, entry, here, up, names, Place, Cwd,
  resolve, enter, opened, lstat, opendir, chdir,
}
use os6_bmstu_iu.Dirwalk.Interface.{StackOps}
use os6_bmstu_iu.Dirwalk.Walk.{
  shown, green, cyan, no_opendir, no_chdir, no_readdir, is_dir, function, Run, fault, World,
  read_entries, do_entries, do_dir, do_path, walk,
}
use os6_bmstu_iu.Dirwalk.Walk.Spec.{AreEntries, items, rooms}

out-if {ℓ} :
    {A : Type ℓ} (b : Bool) (xs ys : List A)
    → (if b then xs ++ ys else xs) ≡ xs ++ (if b then ys else [])
out-if true xs ys = refl
out-if false xs ys = sym (append-nil xs)

module _ (ops : StackOps) where
  open ops use {State, Holds, capacity, push_new, push_lem}

  -- The entries of a directory go on the stack, "." and ".." do not.
  pub read_entries-items :
      (path : Name) (all es : Entries) (d : ℕ) (s : State) (l : List Elem)
      → AreEntries path all es
      → Holds s l
      → length l + rooms es ≤ capacity
      → (s' : State) × (read_entries ops (pos d) (names es) s ≡ some s')
        × Holds s' (items d es ++ l)
  unfolding read_entries AreEntries rooms
  read_entries-items path all end d s l ok h small = (s, refl, h)
  read_entries-items path all (here es) d s l ok h small =
      read_entries-items path all es d s l ok h small
  read_entries-items path all (up es) d s l ok h small =
      read_entries-items path all es d s l ok h small
  read_entries-items path all (entry n t es) d s l (name, found, tree, ok) h small =
      let (s1, e1, h1) = push_lem s l n (pos d) h name.fits (omega arith) in
      let (s2, e2, h2) = read_entries-items path all es d s1 ((n, pos d) ∷ l) ok h1 (omega arith) in
      (
        s2,
        rw (name.not_dot, name.not_dotdot, e1) e2,
        rw (append_assoc (items d es) ((n, pos d) ∷ []) l) h2,
      )

module _ (ops : StackOps) (place : Place) where
  open ops use {State, Holds, capacity, is_empty, is_empty_lem, pop_elem, pop_lem, push_lem}

  -- The end of a round: the next element comes off the stack.
  abbrev pub resume : ℕ → World ops → Run (World ops)
  resume k w = elim (pop_elem w.stk) [
    | none ↦ fault
    | some (elem, stk) ↦ walk ops place k elem (record w { stk = stk })
  ]

  module _ (k : ℕ) (e : Elem) (r : List Elem) (w : World ops) (h : Holds w.stk (e ∷ r)) where
    pub walk-step :
        (n : Name) (d rc : ℤ) (w' : World ops)
        → do_path ops place n d w ≡ some (rc, w')
        → walk ops place (suc k) (n, d) w ≡ resume k w'
    unfolding walk
    walk-step n d rc w' step = rw (is_empty_lem w.stk (e ∷ r) h, step, walk)

    -- The next element is `e`.
    pub resume-pop :
        (s : State) × (resume k w ≡ walk ops place k e (record w { stk = s })) × Holds s r
    resume-pop = let (s, popped, h') = pop_lem w.stk e r h in (s, rw (popped, resume), h')

  -- What the calls say of a name that stands for `t`; `base` is the directory that `t` is
  -- entered from.
  pub record Names (n : Name) (t : Tree) (w : World ops) (base : Cwd) : Type 0 where
    pub found : resolve place n w.cwd ≡ some t
    pub entered : chdir place n w.cwd ≡ enter t base

  module _ (n : Name) (d : ℕ) (w : World ops) where
    pub do_path-missing :
        resolve place n w.cwd ≡ some missing
        → do_path ops place n (pos d) w ≡ some (negsuc 0, record w { errno = true })
    unfolding do_path lstat
    do_path-missing found = rw (found, do_path)

    pub do_path-file :
        (mode : ℕ)
        → resolve place n w.cwd ≡ some (file mode)
        → is_dir mode ≡ false
        → do_path ops place n (pos d) w
          ≡ some (
            pos 0,
            record w { stats = inc_stat mode w.stats; out = w.out ++ (shown d cyan n ∷ []) },
          )
    unfolding do_path lstat function
    do_path-file mode found plain = rw (found, plain, do_path, lstat)

    module _ (mode : ℕ) (a : Access) (es : Entries) (base : Cwd)
        (at : Names n (dir mode a es) w base) (folder : is_dir mode ≡ true) where
      -- The directory has been counted and printed.
      abbrev seen : World ops
      seen = record w {
        stats = record (w.stats) { ndir = w.stats.ndir + 1 };
        out = w.out ++ (shown d green n ∷ []);
      }

      opendir-opened : opendir place n w.cwd ≡ opened (dir mode a es)
      unfolding opendir
      opendir-opened = rw (at.found, opendir)

      pub do_path-closed :
          opened (dir mode a es) ≡ none
          → do_path ops place n (pos d) w
            ≡ some (negsuc 0, record seen { out = seen.out ++ (no_opendir ∷ []); errno = true })
      unfolding do_path lstat function
      do_path-closed closed =
          rw (at.found, folder, do_path, lstat) (rw (opendir-opened, closed, do_dir))

      pub do_path-barred :
          opened (dir mode a es) ≡ some (a, es)
          → enter (dir mode a es) base ≡ none
          → do_path ops place n (pos d) w
            ≡ some (negsuc 0, record seen { out = seen.out ++ (no_chdir ∷ []); errno = true })
      unfolding do_path lstat function
      do_path-barred open_ok barred =
          rw (at.found, folder, do_path, lstat)
            (rw (opendir-opened, open_ok, at.entered, barred, do_dir))

      -- The directory is on the stack, under its entries.
      abbrev pub Entered : List Elem → Type 0
      Entered l =
          (rc : ℤ) × (s' : State) × (do_path ops place n (pos d) w
            ≡ some (
              rc,
              record w {
                stk = s';
                stats = record (w.stats) { ndir = w.stats.ndir + 1 };
                cwd = es ∷ base;
                out = seen.out ++ (if w.errno || not a.reads then no_readdir ∷ [] else []);
                errno = (w.errno || not a.reads) || not a.closes;
              },
            ))
          × Holds s' (items (d + 1) es ++ ((dotdot, negsuc 0) ∷ l))

      pub do_path-Entered :
          (path : Name) (l : List Elem)
          → opened (dir mode a es) ≡ some (a, es)
          → enter (dir mode a es) base ≡ some (es ∷ base)
          → AreEntries path es es
          → Holds w.stk l
          → length l + suc (rooms es) ≤ capacity
          → Entered l
      unfolding do_path lstat function
      do_path-Entered path l open_ok enter_ok ok h small =
          let (s1, e1, h1) = push_lem w.stk l dotdot (negsuc 0) h (omega arith) (omega arith) in
          let (s2, e2, h2) =
            read_entries-items ops path es es (d + 1) s1 ((dotdot, negsuc 0) ∷ l) ok h1
              (omega arith) in
          (
            if a.closes then pos 0 else negsuc 0,
            s2,
            rw (at.found, folder, do_path, lstat)
                (rw (opendir-opened, open_ok, at.entered, enter_ok, do_dir)
                  (rw (e1, do_entries)
                    (rw (e2, do_entries)
                      (rw (out-if (w.errno || not a.reads) seen.out (no_readdir ∷ [])))))),
            h2,
          )
