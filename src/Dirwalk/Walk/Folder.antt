-- ===== src/Dirwalk/Walk/Folder.antt =====
-- The walk of lab_02/main.c: the rounds for one name, with what a directory's entries do as a
-- hypothesis.
use os6_bmstu_iu.Common.{
  ℕ, suc, ◌+◌, ◌≤◌, ◌≡◌, refl, ap, ◌∙◌, Bool, true, false, not, ◌||◌, some, List, [], ◌∷◌, ◌++◌, ℤ,
  pos, negsuc, length, if◌then◌else◌, arith, append_assoc, Bool-cases, inl, inr,
}
use os6_bmstu_iu.Dirwalk.Memory.{Elem}
use os6_bmstu_iu.Dirwalk.Stats.{Stats}
use os6_bmstu_iu.Dirwalk.Files.{
  Name, dotdot, Access, Tree, missing, file, dir, Entries, Place, Cwd, chdir, parent,
}
use os6_bmstu_iu.Dirwalk.Interface.{StackOps}
use os6_bmstu_iu.Dirwalk.Walk.{
  Line, shown, green, no_opendir, no_chdir, no_readdir, is_dir, Run, World, do_path, walk,
}
use os6_bmstu_iu.Dirwalk.Walk.Spec.{
  AreEntries, items, rooms, fails, fails_all, listing, listings, tally, tallies, rounds, rounds_all,
}
use os6_bmstu_iu.Dirwalk.Walk.Steps.{
  resume, walk-step, resume-pop, Names, do_path-closed, do_path-barred, do_path-Entered,
}

-- Where a walk over `t` leaves the working directory.
abbrev pub left_in : Tree → Cwd → Cwd → Cwd
left_in missing base c = c
left_in (file m) base c = c
left_in (dir m a es) base c = if a.opens then if a.enters then parent (es ∷ base) else c else c

module _ (ops : StackOps) (place : Place) where
  open ops use {State, Holds, capacity, is_empty, is_empty_lem, pop_elem, pop_lem, push_lem}

  -- A run `from` has gone over a part of the tree: it goes on as `resume k` with the stack `l`,
  -- the working directory `c`, and what the part adds to the output, the counters
  -- and `errno`.
  pub record Goes (from : Run (World ops)) (k : ℕ) (l : List Elem) (c : Cwd) (out : List Line)
      (stats : Stats) (errno : Bool) : Type 0 where
    pub world : World ops
    pub run : from ≡ resume ops place k world
    pub holds : Holds world.stk l
    pub cwd : world.cwd ≡ c
    pub printed : world.out ≡ out
    pub counted : world.stats ≡ stats
    pub failed : world.errno ≡ errno

  -- The element ".." of a directory leads back.
  back_up :
      (k : ℕ) (e : Elem) (r : List Elem) (w : World ops)
      → Holds w.stk ((dotdot, negsuc 0) ∷ e ∷ r)
      → Goes (resume ops place (suc k) w) k (e ∷ r) (parent w.cwd) w.out w.stats w.errno
  unfolding do_path chdir
  back_up k e r w h =
      let (s, run, h') = resume-pop ops place (suc k) (dotdot, negsuc 0) (e ∷ r) w h in
      record {
        world = record w { stk = s; cwd = parent w.cwd };
        run =
            run
            ∙ walk-step ops place k e r (record w { stk = s }) h' dotdot (negsuc 0) (pos 0) _ refl;
        holds = h';
        cwd = refl;
        printed = refl;
        counted = refl;
        failed = refl;
      }

  Goes-trans :
      {from : Run (World ops)} (j k : ℕ) {l l' : List Elem} {c c' : Cwd} {out out' : List Line}
      {stats stats' : Stats} {e e' : Bool}
      → (g : Goes from j l c out stats e) → Goes (resume ops place j g.world) k l' c' out' stats' e'
      → Goes from k l' c' out' stats' e'
  Goes-trans j k g g' = record {
    world = g'.world;
    run = g.run ∙ g'.run;
    holds = g'.holds;
    cwd = g'.cwd;
    printed = g'.printed;
    counted = g'.counted;
    failed = g'.failed;
  }

  -- The entries `es` of the directory `all`, at depth `d`, are gone over.
  abbrev pub AllGo : Entries → Entries → ℕ → Type 0
  AllGo all es d =
      (k : ℕ) (w : World ops) (c : Cwd) (e : Elem) (r : List Elem)
      → Holds w.stk (items d es ++ (e ∷ r))
      → w.cwd ≡ all ∷ c
      → suc (length r) + rooms es ≤ capacity
      → Goes (resume ops place (rounds_all es k) w) k (e ∷ r) (all ∷ c)
          (w.out ++ listings w.errno d es) (tallies es w.stats) (fails_all es w.errno)

  module _ (n : Name) (d : ℕ) (w : World ops) (k : ℕ) (e : Elem) (r : List Elem)
      (h : Holds w.stk (e ∷ r)) where
    abbrev pub TreeGoes : Tree → Cwd → Type 0
    TreeGoes t base =
        Goes (walk ops place (rounds t k) (n, pos d) w) k (e ∷ r) (left_in t base w.cwd)
          (w.out ++ listing w.errno d n t) (tally t w.stats) (fails t w.errno)

    -- A round that pushes nothing.
    pub one_round :
        (rc : ℤ) (w' : World ops)
        → do_path ops place n (pos d) w ≡ some (rc, w')
        → Holds w'.stk (e ∷ r)
        → Goes (walk ops place (suc k) (n, pos d) w) k (e ∷ r) w'.cwd w'.out w'.stats w'.errno
    one_round rc w' step h' = record {
      world = w';
      run = walk-step ops place k e r w h n (pos d) rc w' step;
      holds = h';
      cwd = refl;
      printed = refl;
      counted = refl;
      failed = refl;
    }

    -- A directory that cannot be opened.
    visit_closed :
        (mode : ℕ) (a : Access) (es : Entries) (base : Cwd)
        → Names ops place n (dir mode a es) w base
        → is_dir mode ≡ true
        → a.opens ≡ false
        → Goes
            (walk ops place (suc k) (n, pos d) w)
            k
            (e ∷ r)
            w.cwd
            (w.out ++ (shown d green n ∷ no_opendir ∷ []))
            (record (w.stats) { ndir = w.stats.ndir + 1 })
            true
    visit_closed mode a es base at folder shut =
        rw (← append_assoc w.out (shown d green n ∷ []) (no_opendir ∷ [])) (
          one_round (negsuc 0) _ (do_path-closed ops place n d w mode a es base at folder (rw shut))
            h)

    -- A directory that cannot be entered.
    visit_barred :
        (mode : ℕ) (a : Access) (es : Entries) (base : Cwd)
        → Names ops place n (dir mode a es) w base
        → is_dir mode ≡ true
        → a.opens ≡ true
        → a.enters ≡ false
        → Goes
            (walk ops place (suc k) (n, pos d) w)
            k
            (e ∷ r)
            w.cwd
            (w.out ++ (shown d green n ∷ no_chdir ∷ []))
            (record (w.stats) { ndir = w.stats.ndir + 1 })
            true
    visit_barred mode a es base at folder open_ok barred =
        rw (← append_assoc w.out (shown d green n ∷ []) (no_chdir ∷ [])) (
          one_round (negsuc 0) _
            (do_path-barred ops place n d w mode a es base at folder (rw open_ok) (rw barred)) h)

    -- A directory that is opened and entered.
    visit_entered :
        (mode : ℕ) (a : Access) (es : Entries) (base : Cwd)
        → Names ops place n (dir mode a es) w base
        → is_dir mode ≡ true
        → a.opens ≡ true
        → a.enters ≡ true
        → AreEntries place.path es es
        → AllGo es es (d + 1)
        → suc (length r) + suc (rooms es) ≤ capacity
        → Goes
            (walk ops place (suc (rounds_all es (suc k))) (n, pos d) w)
            k
            (e ∷ r)
            (parent (es ∷ base))
            (w.out
              ++ (shown d green n
                  ∷ ((if w.errno || not a.reads then no_readdir ∷ [] else [])
                      ++ listings ((w.errno || not a.reads) || not a.closes) (d + 1) es)))
            (tallies es (record (w.stats) { ndir = w.stats.ndir + 1 }))
            (fails_all es ((w.errno || not a.reads) || not a.closes))
    visit_entered mode a es base at folder open_ok enters ok ih small =
        let (rc, s', step, held) =
          do_path-Entered ops place n d w mode a es base at folder place.path (e ∷ r) (rw open_ok)
            (rw enters) ok h (omega arith) in
        let w1 = record w {
          stk = s';
          stats = record (w.stats) { ndir = w.stats.ndir + 1 };
          cwd = es ∷ base;
          out =
              (w.out ++ (shown d green n ∷ []))
              ++ (if w.errno || not a.reads then no_readdir ∷ [] else []);
          errno = (w.errno || not a.reads) || not a.closes;
        } in
        let inside = ih (suc k) w1 base (dotdot, negsuc 0) (e ∷ r) held refl (omega arith) in
        let leave = back_up k e r inside.world inside.holds in
        record {
          world = leave.world;
          run =
              walk-step ops place (rounds_all es (suc k)) e r w h n (pos d) rc w1 step
              ∙ inside.run
              ∙ leave.run;
          holds = leave.holds;
          cwd = leave.cwd ∙ ap parent inside.cwd;
          printed = leave.printed ∙ inside.printed ∙ simp append_assoc;
          counted = leave.counted ∙ inside.counted;
          failed = leave.failed ∙ inside.failed;
        }

    pub visit_dir :
        (mode : ℕ) (a : Access) (es : Entries) (base : Cwd)
        → Names ops place n (dir mode a es) w base
        → is_dir mode ≡ true
        → AreEntries place.path es es
        → AllGo es es (d + 1)
        → suc (length r) + suc (rooms es) ≤ capacity
        → TreeGoes (dir mode a es) base
    unfolding rounds tally listing fails
    visit_dir mode a es base at folder ok ih small = elim (Bool-cases a.opens) [
      | inr shut ↦ rw shut (visit_closed mode a es base at folder shut)
      | inl open_ok ↦ elim (Bool-cases a.enters) [
        | inr barred ↦ rw (open_ok, barred) (visit_barred mode a es base at folder open_ok barred)
        | inl enters ↦
            rw (open_ok, enters) (visit_entered mode a es base at folder open_ok enters ok ih small)
      ]
    ]
