-- ===== src/Dirwalk/Order.antt =====
-- lab_02: two runs of the program on one tree whose directories list their entries in different
-- orders.
mod Tests
use mathlib.Core.Quot.{sound}
use mathlib.Mathlib.Data.Multiset.Defs.{Multiset, of_list}
use os6_bmstu_iu.Common.{
  ℕ, ◌+◌, ◌*◌, ◌<◌, ◌≡◌, refl, ap, sym, ◌∙◌, subst, false, Option, none, some, List, [], ◌∷◌, ℤ,
  pos,
}
use os6_bmstu_iu.Dirwalk.Memory.{Ptr, Mem, Allocates}
use os6_bmstu_iu.Dirwalk.Stats.{Stats, zero_stats, print_stat}
use os6_bmstu_iu.Dirwalk.Files.{Tree, Place}
use os6_bmstu_iu.Dirwalk.Walk.{Line, Run, finished, fault, out_of_fuel, World, arrived, main}
use os6_bmstu_iu.Dirwalk.Walk.Spec.{room, listing, tally}
use os6_bmstu_iu.Dirwalk.Walk.Result.{IsStart, Reported}
use os6_bmstu_iu.Dirwalk.Walk.Reordered.{SameTree, tally-SameTree}
use os6_bmstu_iu.Dirwalk.Walk.Heard.{heard, listing-SameTree}
use os6_bmstu_iu.Dirwalk.Interface.{StackOps}
use os6_bmstu_iu.Dirwalk.Program.{stack_ops, start, main-Reported}

-- What a user sees of a run, up to the order of the lines above the table and without the messages
-- on `readdir`: the value, the lines, the counters and the rows of the table.
abbrev pub Seen : Type 0
Seen = Option (ℤ × Multiset Line × Stats × List (ℕ × ℕ))

abbrev pub seen : (ops : StackOps) → Run (ℤ × World ops × List (ℕ × ℕ)) → Seen
seen ops (finished (v, w, rows)) = some (v, of_list (heard w.out), w.stats, rows)
seen ops fault = none
seen ops out_of_fuel = none

abbrev reported : List Line → Option (Stats × List (ℕ × ℕ)) → Seen
reported ls none = none
reported ls (some (stats, rows)) = some (pos 0, of_list (heard ls), stats, rows)

Reported-seen :
    (ops : StackOps) (place : Place) (w : World ops) (o : Option (Stats × List (ℕ × ℕ)))
    (r : Run (ℤ × World ops × List (ℕ × ℕ)))
    → w.out ≡ []
    → Reported ops place w o r
    → seen ops r ≡ reported (listing w.errno 0 place.path place.tree) o
Reported-seen ops place w none r empty h = rw h
Reported-seen ops place w (some (stats, rows)) r empty (w', run, out, counted, _) =
    rw (run, out, counted, empty)

module _ (malloc : Mem → Ptr) (allocates : Allocates malloc) (place : Place) (tree : Tree)
    (fuel : ℕ) where
  -- The same place, with another tree.
  abbrev pub other : Place
  other = record place { tree = tree }

  abbrev pub run_at : Place → ℕ → Seen
  run_at p rounds =
      seen (stack_ops malloc allocates p fuel) (
        main (stack_ops malloc allocates p fuel) p 2 arrived rounds (start malloc allocates p fuel))

  -- With memory for every node, a list of at most `fuel` nodes, proper names and enough rounds for
  -- both, two runs on trees that differ in the order in which `readdir` gives the entries, at any
  -- depth, give the same value, the same counters and the same table, and print the same lines up to
  -- their order and the messages on `readdir`; and the one stops at a fault when the other does.
  pub main-SameTree :
      (rounds rounds' : ℕ)
      → SameTree place.tree tree
      → IsStart (stack_ops malloc allocates place fuel) place
      → IsStart (stack_ops malloc allocates other fuel) other
      → 1 + 2 * room place.tree < rounds
      → 1 + 2 * room tree < rounds'
      → run_at place rounds ≡ run_at other rounds'
  main-SameTree rounds rounds' same one two enough enough' =
      Reported-seen (stack_ops malloc allocates place fuel) place
        (start malloc allocates place fuel) (print_stat (tally place.tree zero_stats)) _ refl
        (main-Reported malloc allocates place fuel rounds one enough)
      ∙ ap (reported (listing false 0 place.path place.tree))
          (ap print_stat (tally-SameTree same zero_stats))
      ∙ lines
      ∙ sym (
          Reported-seen (stack_ops malloc allocates other fuel) other
            (start malloc allocates other fuel) (print_stat (tally tree zero_stats)) _ refl
            (main-Reported malloc allocates other fuel rounds' two enough'))
    where
      by_bag :
          (o : Option (Stats × List (ℕ × ℕ))) (ls ls' : List Line)
          → ◌≡◌ {A = Multiset Line} (of_list (heard ls)) (of_list (heard ls'))
          → reported ls o ≡ reported ls' o
      by_bag none ls ls' e = refl
      by_bag (some (stats, rows)) ls ls' e = ap (λ b. some (pos 0, b, stats, rows)) e

      lines :
          reported (listing false 0 place.path place.tree) (print_stat (tally tree zero_stats))
          ≡ reported (listing false 0 place.path tree) (print_stat (tally tree zero_stats))
      lines =
          by_bag (print_stat (tally tree zero_stats)) (listing false 0 place.path place.tree)
            (listing false 0 place.path tree)
            (sound (listing-SameTree same false false 0 place.path))
