-- ===== src/Dirwalk/Walk/Visit.antt =====
-- The walk of lab_02/main.c over a whole tree, with each directory's entries by induction.
use os6_bmstu_iu.Common.{
  ℕ, suc, ◌+◌, ◌≤◌, ◌≡◌, refl, sym, ap, ◌∙◌, Bool, subst, some, List, [], ◌∷◌, ◌++◌, pos, negsuc,
  length, arith, append_assoc, append-nil,
}
use os6_bmstu_iu.Dirwalk.Memory.{Elem}
use os6_bmstu_iu.Dirwalk.Stats.{Stats}
use os6_bmstu_iu.Dirwalk.Files.{
  Name, Tree, missing, file, dir, Entries, end, entry, here, up, Place, Cwd, lookup, enter, chdir,
}
use os6_bmstu_iu.Dirwalk.Interface.{StackOps}
use os6_bmstu_iu.Dirwalk.Walk.{Line, Run, World}
use os6_bmstu_iu.Dirwalk.Walk.Spec.{
  IsName, IsTree, AreEntries, items, room, fails, fails_all, listing, listings, tally, rounds,
}
use os6_bmstu_iu.Dirwalk.Walk.Steps.{resume-pop, Names, do_path-missing, do_path-file}
use os6_bmstu_iu.Dirwalk.Walk.Folder.{Goes, AllGo, TreeGoes, left_in, one_round, visit_dir}

module _ (ops : StackOps) (place : Place) where
  open ops use {State, Holds, capacity, is_empty, is_empty_lem, pop_elem, pop_lem, push_lem}

  -- An entry of the working directory.
  entry-Names :
      (n : Name) (t : Tree) (w : World ops) (c : Entries) (cs : Cwd)
      → IsName place.path n
      → lookup n c ≡ some t
      → w.cwd ≡ c ∷ cs
      → Names ops place n t w (c ∷ cs)
  unfolding chdir
  entry-Names n t w c cs name found at = record {
    found = rw (name.not_path, at, found);
    entered = rw (name.not_dotdot, name.not_path, at, found) (ap (enter t) at);
  }

  left_in-entry : (t : Tree) (c : Entries) (cs d : Cwd) → d ≡ c ∷ cs → left_in t (c ∷ cs) d ≡ c ∷ cs
  left_in-entry missing c cs d at = at
  left_in-entry (file m) c cs d at = at
  left_in-entry (dir m a es) c cs d at = ground arith

  Goes-cwd :
      {from : Run (World ops)} {k : ℕ} {l : List Elem} {c c' : Cwd} {out : List Line}
      {stats : Stats} {errno : Bool}
      → c ≡ c'
      → Goes ops place from k l c out stats errno
      → Goes ops place from k l c' out stats errno
  Goes-cwd same g = record {
    world = g.world;
    run = g.run;
    holds = g.holds;
    cwd = g.cwd ∙ same;
    printed = g.printed;
    counted = g.counted;
    failed = g.failed;
  }

  mutual
    unfolding IsTree rounds tally listing fails room

    pub visit :
        (t : Tree) (n : Name) (d : ℕ) (w : World ops) (k : ℕ) (e : Elem) (r : List Elem)
        (base : Cwd)
        → Names ops place n t w base
        → IsTree place.path t
        → (h : Holds w.stk (e ∷ r)) → suc (length r) + room t ≤ capacity
        → TreeGoes ops place n d w k e r h t base
    visit missing n d w k e r base at ok h small = rw (append-nil w.out) (
        one_round ops place n d w k e r h (negsuc 0) _ (do_path-missing ops place n d w at.found) h)
    visit (file m) n d w k e r base at ok h small =
        one_round ops place n d w k e r h (pos 0) _ (do_path-file ops place n d w m at.found ok) h
    visit (dir m a es) n d w k e r base at ok h small =
        visit_dir ops place n d w k e r h m a es base at ok.0 ok.1 (visit_all es es (d + 1) ok.1)
          small

    visit_all : (es all : Entries) (d : ℕ) → AreEntries place.path all es → AllGo ops place all es d
    visit_all end all d ok k w c e r h at small = record {
      world = w;
      run = refl;
      holds = h;
      cwd = at;
      printed = sym (append-nil w.out);
      counted = refl;
      failed = refl;
    }
    visit_all (here es) all d ok k w c e r h at small = visit_all es all d ok k w c e r h at small
    visit_all (up es) all d ok k w c e r h at small = visit_all es all d ok k w c e r h at small
    visit_all (entry n t es) all d ok k w c e r h at small =
        let before =
          visit_all es all d ok.3 (rounds t k) w c (n, pos d) (e ∷ r)
            (subst (Holds w.stk) (append_assoc (items d es) ((n, pos d) ∷ []) (e ∷ r)) h) at
            (omega arith) in
        let (s, popped, h') =
          resume-pop ops place (rounds t k) (n, pos d) (e ∷ r) before.world before.holds in
        let w' = record (before.world) { stk = s } in
        let it =
          visit t n d w' k e r (all ∷ c) (entry-Names n t w' all c ok.0 ok.1 before.cwd) ok.2 h'
            (omega arith) in
        record {
          world = it.world;
          run = before.run ∙ popped ∙ it.run;
          holds = it.holds;
          cwd = it.cwd ∙ left_in-entry t all c w'.cwd before.cwd;
          printed =
              it.printed
              ∙ ap (λ l. l ++ listing before.world.errno d n t) before.printed
              ∙ ap (λ f. (w.out ++ listings w.errno d es) ++ listing f d n t) before.failed
              ∙ append_assoc w.out (listings w.errno d es) (listing (fails_all es w.errno) d n t);
          counted = it.counted ∙ ap (tally t) before.counted;
          failed = it.failed ∙ ap (fails t) before.failed;
        }
