-- ===== src/Dirwalk/Walk/Result.antt =====
-- The result of `ftw` of lab_02/main.c: the whole tree is printed and counted.
use os6_bmstu_iu.Common.{
  ℕ, zero, suc, ◌+◌, ◌-◌, ◌*◌, ◌≤◌, ◌<◌, ◌≡◌, refl, ap, subst, ◌∙◌, false, Option, none, some, List,
  [], ◌∷◌, ◌++◌, ℤ, pos, length, str_eq, str_eq_refl, arith,
}
use os6_bmstu_iu.Dirwalk.Memory.{Elem}
use os6_bmstu_iu.Dirwalk.Stack.{max_name}
use os6_bmstu_iu.Dirwalk.Stats.{Stats, print_stat}
use os6_bmstu_iu.Dirwalk.Files.{
  dotdot, Tree, missing, file, dir, Entries, end, entry, here, up, Place, chdir,
}
use os6_bmstu_iu.Dirwalk.Interface.{StackOps}
use os6_bmstu_iu.Dirwalk.Walk.{Run, finished, fault, World, walk, ftw, report, arrived}
use os6_bmstu_iu.Dirwalk.Walk.Spec.{IsTree, room, rooms, listing, tally, rounds, rounds_all}
use os6_bmstu_iu.Dirwalk.Walk.Steps.{resume-pop, Names}
use os6_bmstu_iu.Dirwalk.Walk.Visit.{visit}

mutual
  unfolding rounds

  rounds-add : (t : Tree) (k : ℕ) → rounds t k ≡ rounds t 0 + k
  rounds-add missing k = omega arith
  rounds-add (file m) k = omega arith
  rounds-add (dir m a es) k =
      ground (arith, rounds_all-add es (suc k), rounds_all-add es (suc zero))

  rounds_all-add : (es : Entries) (k : ℕ) → rounds_all es k ≡ rounds_all es 0 + k
  rounds_all-add end k = omega arith
  rounds_all-add (here es) k = rounds_all-add es k
  rounds_all-add (up es) k = rounds_all-add es k
  rounds_all-add (entry n t es) k =
      omega (arith, rounds_all-add es (rounds t k), rounds_all-add es (rounds t 0), rounds-add t k)

mutual
  unfolding rounds room

  rounds-le : (t : Tree) (k : ℕ) → rounds t k ≤ k + 1 + 2 * room t
  rounds-le missing k = omega arith
  rounds-le (file m) k = omega arith
  rounds-le (dir m a es) k = ground (arith, rounds_all-le es (suc k))

  rounds_all-le : (es : Entries) (k : ℕ) → rounds_all es k ≤ k + 2 * rooms es
  rounds_all-le end k = omega arith
  rounds_all-le (here es) k = rounds_all-le es k
  rounds_all-le (up es) k = rounds_all-le es k
  rounds_all-le (entry n t es) k = omega (arith, rounds_all-le es (rounds t k), rounds-le t k)

module _ (ops : StackOps) (place : Place) where
  open ops use {State, Holds, capacity, is_empty, is_empty_lem, pop_elem, pop_lem, push_lem}

  -- The name of the start fits a node, and the tree below it has proper names.
  pub record IsStart : Type 0 where
    pub fits : length place.path < max_name
    pub not_dotdot : str_eq place.path dotdot ≡ false
    pub proper : IsTree place.path place.tree
    pub enough : 2 + room place.tree ≤ capacity

  -- The walk is over, with an empty stack.
  pub record Walked (w : World ops) (r : Run (World ops)) : Type 0 where
    pub world : World ops
    pub run : r ≡ finished world
    pub empty : Holds world.stk []
    pub printed : world.out ≡ w.out ++ listing w.errno 0 place.path place.tree
    pub counted : world.stats ≡ tally place.tree w.stats

  start-Names : (w : World ops) → IsStart → Names ops place place.path place.tree w place.above
  unfolding chdir
  start-Names w start = record {
    found = rw (str_eq_refl place.path);
    entered = rw (start.not_dotdot, str_eq_refl place.path);
  }

  -- With the sentinel on the stack the walk ends when the start has been gone over.
  walk-Walked :
      (w : World ops) (k : ℕ)
      → IsStart
      → Holds w.stk ((place.path, pos 0) ∷ [])
      → Walked w (walk ops place (rounds place.tree (suc k)) (place.path, pos 0) w)
  unfolding walk
  walk-Walked w k start h =
      let e : Elem = (place.path, pos 0) in
      let it =
        visit ops place place.tree place.path 0 w (suc k) e [] place.above (start-Names w start)
          start.proper h (omega (arith, start.enough)) in
      let (s, popped, h') = resume-pop ops place (suc k) e [] it.world it.holds in
      record {
        world = record (it.world) { stk = s };
        run = it.run ∙ popped ∙ rw (is_empty_lem s [] h', walk);
        empty = h';
        printed = it.printed;
        counted = it.counted;
      }

  -- How a run ends, by the table of its counters: without a table it stops at a fault; with one
  -- it returns 0, and every name has been printed in order, every file counted, and the stack is
  -- empty.
  abbrev pub Reported :
      World ops → Option (Stats × List (ℕ × ℕ)) → Run (ℤ × World ops × List (ℕ × ℕ)) → Type 0
  Reported w none r = r ≡ fault
  Reported w (some (stats, rows)) r =
      (w' : World ops) × (r ≡ finished (pos 0, w', rows))
      × (w'.out ≡ w.out ++ listing w.errno 0 place.path place.tree)
      × (w'.stats ≡ stats)
      × Holds w'.stk []

  report-Reported :
      (w w' : World ops) (o : Option (Stats × List (ℕ × ℕ)))
      → print_stat w'.stats ≡ o
      → w'.out ≡ w.out ++ listing w.errno 0 place.path place.tree
      → Holds w'.stk []
      → Reported w o (report ops place w')
  unfolding report
  report-Reported w w' none table printed empty = rw (table, report)
  report-Reported w w' (some (stats, rows)) table printed empty =
      (record w' { stats = stats }, rw (table, report), printed, refl, empty)

  -- From an empty stack and with fuel above twice the room that the tree needs, `ftw` ends, and
  -- reports the counters of the tree.
  pub ftw-Reported :
      (w : World ops) (fuel : ℕ)
      → IsStart
      → Holds w.stk []
      → 1 + 2 * room place.tree < fuel
      → Reported w (print_stat (tally place.tree w.stats)) (ftw ops place arrived fuel w)
  unfolding ftw
  ftw-Reported w fuel start h enough =
      let (s, pushed, h') =
        push_lem w.stk [] place.path (pos 0) h start.fits (omega (arith, start.enough)) in
      let k = fuel - rounds place.tree 0 - 1 in
      let all : rounds place.tree (suc k) ≡ fuel =
        rounds-add place.tree (suc k) ∙ omega (arith, rounds-le place.tree 0) in
      let it = walk-Walked (record w { stk = s }) k start h' in
      let run =
        subst (λ f. walk ops place f (place.path, pos 0) (record w { stk = s }) ≡ finished it.world)
          all it.run in
      rw (pushed, run, ftw)
        (report-Reported w it.world (print_stat (tally place.tree w.stats))
          (ap print_stat it.counted) it.printed it.empty)
