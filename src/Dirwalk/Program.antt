-- ===== src/Dirwalk/Program.antt =====
-- The program of lab_02 as a whole: `main` over the list of lab_02/lib/stack.c.
use os6_bmstu_iu.Common.{
  ℕ, ◌+◌, ◌*◌, ◌^◌, ◌<◌, ◌≡◌, refl, ap, ◌∙◌, false, none, List, [], pos, arith, subst,
}
use os6_bmstu_iu.Dirwalk.Memory.{Ptr, null, Mem, Allocates}
use os6_bmstu_iu.Dirwalk.Stats.{Stats, zero_stats, print_stat}
use os6_bmstu_iu.Dirwalk.Stats.Counting.{total}
use os6_bmstu_iu.Dirwalk.Stats.Table.{print_stat-shares, print_stat-none}
use os6_bmstu_iu.Dirwalk.Files.{missing, Place}
use os6_bmstu_iu.Dirwalk.Interface.{StackOps}
use os6_bmstu_iu.Dirwalk.Linked.{linked, linked_stack, Holds}
use os6_bmstu_iu.Dirwalk.Walk.{finished, fault, World, arrived, main}
use os6_bmstu_iu.Dirwalk.Walk.Spec.{room, listing, tally}
use os6_bmstu_iu.Dirwalk.Walk.Result.{IsStart, Reported, ftw-Reported}
use os6_bmstu_iu.Dirwalk.Walk.Count.{names_in, AreCounted, total-tally}

module _ (malloc : Mem → Ptr) (allocates : Allocates malloc) (place : Place) (fuel : ℕ) where
  abbrev pub stack_ops : StackOps
  stack_ops = linked_stack malloc fuel allocates

  -- The globals before the run, with `stk == NULL` and `errno == 0`.
  abbrev pub start : World stack_ops
  start = record {
    stk = linked [] null;
    stats = zero_stats;
    cwd = place.above;
    out = [];
    errno = false;
  }

  empty : Holds malloc fuel (linked [] null) []
  empty = record {
    cells = [];
    chain = tt;
    first = refl;
    elems = refl;
    fit = tt;
    small = omega arith;
  }

  -- With memory for every node, a list of at most `fuel` nodes, names that fit a node and are
  -- neither "." nor ".." nor the start's own, and more than 1 + 2 * room rounds, `main` with one
  -- argument prints each name of the tree in order and the table of its counters, and returns 0; it
  -- stops at a fault when the table cannot be printed.
  pub main-Reported :
      (rounds : ℕ)
      → IsStart stack_ops place
      → 1 + 2 * room place.tree < rounds
      → Reported stack_ops place start
          (print_stat (tally place.tree zero_stats))
          (main stack_ops place 2 arrived rounds start)
  unfolding main
  main-Reported rounds proper enough = ftw-Reported stack_ops place start rounds proper empty enough

  -- Under the conditions of `main-Reported`, if every file is of a kind that has a counter, and
  -- there is at least one and few enough that a hundred times their number fits an `int`, the total
  -- in the table is the number of names that were printed.
  pub main-total :
      (rounds : ℕ)
      → IsStart stack_ops place
      → 1 + 2 * room place.tree < rounds
      → AreCounted place.tree
      → 0 < names_in (listing false 0 place.path place.tree)
      → names_in (listing false 0 place.path place.tree) * 100 < 2 ^ 31
      → (w : World stack_ops) × (rows : List (ℕ × ℕ)) × (main stack_ops place 2 arrived rounds start
          ≡ finished (pos 0, w, rows))
        × (w.out ≡ listing false 0 place.path place.tree)
        × (w.stats.ntotal ≡ names_in w.out)
  main-total rounds proper enough counted more small =
      let sum = total-tally place.tree false 0 place.path zero_stats counted in
      let (s, rows, printed, added, _, _, _) =
        print_stat-shares (tally place.tree zero_stats) (omega arith) (omega arith) in
      let (w, run, out, stats, _) =
        subst (λ o. Reported stack_ops place start o (main stack_ops place 2 arrived rounds start))
          printed (main-Reported rounds proper enough) in
      let total_names : w.stats.ntotal ≡ names_in w.out =
        omega (arith, ap (λ (t : Stats). t.ntotal) (stats ∙ added), sum, ap names_in out) in
      (w, rows, run, out, total_names)

  -- Under the conditions of `main-Reported`, if `lstat` fails on the start, nothing is counted, and
  -- the program divides by zero.
  pub main-missing :
      (rounds : ℕ)
      → IsStart stack_ops place
      → place.tree ≡ missing
      → 1 + 2 * room place.tree < rounds
      → main stack_ops place 2 arrived rounds start ≡ fault
  unfolding tally
  main-missing rounds proper lost enough =
      let none_left : print_stat (tally place.tree zero_stats) ≡ none =
        print_stat-none (tally place.tree zero_stats) (ap (λ t. total (tally t zero_stats)) lost) in
      subst (λ o. Reported stack_ops place start o (main stack_ops place 2 arrived rounds start))
        none_left (main-Reported rounds proper enough)
