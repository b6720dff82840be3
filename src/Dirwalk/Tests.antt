-- ===== src/Dirwalk/Tests.antt =====
-- The program of lab_02 on a small tree, and its theorems there.
use os6_bmstu_iu.Common.{
  ℕ, ◌+◌, ◌*◌, ◌<◌, ◌≤◌, ◌≡◌, refl, false, some, List, [], ◌∷◌, pos, negsuc, codes, arith,
}
use os6_bmstu_iu.Dirwalk.Stack.Chain.{Chain}
use os6_bmstu_iu.Dirwalk.Stack.Push.{Pushed, push-Chain}
use os6_bmstu_iu.Dirwalk.Stack.Pop.{Popped, pop-Chain}
use os6_bmstu_iu.Dirwalk.Stats.Table.{counts, shares, print_stat-shares}
use os6_bmstu_iu.Dirwalk.Memory.{null, Elem, node, Mem, write}
use os6_bmstu_iu.Dirwalk.Stack.{pop}
use os6_bmstu_iu.Dirwalk.Files.{file, dir, Entries, end, entry, here, up, Place}
use os6_bmstu_iu.Dirwalk.Walk.{
  shown, green, cyan, no_opendir, no_readdir, finished, World, main, arrived,
}
use os6_bmstu_iu.Dirwalk.Interface.{StackOps}
use os6_bmstu_iu.Dirwalk.Stats.{Stats, zero_stats, print_stat}
use os6_bmstu_iu.Dirwalk.Walk.Spec.{IsTree, room, fails, listing, tally}
use os6_bmstu_iu.Dirwalk.Walk.Result.{IsStart, Reported}
use os6_bmstu_iu.Dirwalk.Walk.Count.{names_in, AreCounted}
use os6_bmstu_iu.Dirwalk.Program.{stack_ops, start, main-Reported, main-total}
use os6_bmstu_iu.Dirwalk.Samples.{fresh, fresh-Allocates, all_open}

-- "/w" holds a file "a", a directory "d" with a FIFO "b", and a directory "x" that cannot be
-- opened.
abbrev inner : Entries
inner = here (up (entry (codes "b") (file 0x11a4) end))

abbrev outer : Entries
outer = here (
    up (
      entry (codes "a") (file 0x81a4) (
        entry (codes "d") (dir 0x41ed all_open inner)
          (entry (codes "x") (dir 0x4000 (record all_open { opens = false }) end) end))))

abbrev place : Place
place = record { path = codes "/w"; tree = dir 0x41ed all_open outer; above = end ∷ [] }

listing_order :
    listing false 0 place.path place.tree
    ≡ shown 0 green (codes "/w")
      ∷ shown 1 green (codes "x")
      ∷ no_opendir
      ∷ shown 1 green (codes "d")
      ∷ no_readdir
      ∷ shown 2 cyan (codes "b")
      ∷ shown 1 cyan (codes "a")
      ∷ []
unfolding listing fails
listing_order = refl

abbrev ops : StackOps
ops = stack_ops fresh fresh-Allocates place 20

proper : IsStart ops place
unfolding IsTree room
proper = record {
  fits = omega arith;
  not_dotdot = refl;
  proper = (
    refl,
    (
      record { fits = omega arith; not_dot = refl; not_dotdot = refl; not_path = refl },
      refl,
      refl,
      (
        record { fits = omega arith; not_dot = refl; not_dotdot = refl; not_path = refl },
        refl,
        (
          refl,
          (
            record { fits = omega arith; not_dot = refl; not_dotdot = refl; not_path = refl },
            refl,
            refl,
            tt,
          ),
        ),
        (
          record { fits = omega arith; not_dot = refl; not_dotdot = refl; not_path = refl },
          refl,
          (refl, tt),
          tt,
        ),
      ),
    ),
  );
  enough = omega arith;
}

counted : AreCounted place.tree
unfolding AreCounted
counted = (refl, ((refl, tt), (tt, tt)))

enough : 1 + 2 * room place.tree < 20
unfolding room
enough = omega arith

main-Reported_example :
    Reported ops place
      (start fresh fresh-Allocates place 20)
      (print_stat (tally place.tree zero_stats))
      (main ops place 2 arrived 20 (start fresh fresh-Allocates place 20))
main-Reported_example = main-Reported fresh fresh-Allocates place 20 20 proper enough

main-total_example :
    (w : World ops) × (rows : List (ℕ × ℕ)) × (main ops place 2 arrived 20
        (start fresh fresh-Allocates place 20)
      ≡ finished (pos 0, w, rows))
    × (w.out ≡ listing false 0 place.path place.tree)
    × (w.stats.ntotal ≡ names_in w.out)
unfolding listing fails
main-total_example =
    main-total fresh fresh-Allocates place 20 20 proper enough counted (omega arith) (omega arith)

-- A stack with one node at 1, and an element at 2 to be pushed.
abbrev one : Elem
one = (codes "a", pos 1)

abbrev two : Elem
two = (codes "..", negsuc 0)

abbrev before : Mem
before = write 2 (some (node two null)) (write 1 (some (node one null)) [])

one-Chain : Chain before ((1, one) ∷ [])
one-Chain = (omega arith, refl, refl, tt)

push-Chain_example :
    Pushed fresh fresh-Allocates 20 before 2 two null
      (omega arith)
      refl
      (omega arith)
      ((1, one) ∷ [])
push-Chain_example =
    push-Chain fresh fresh-Allocates 20 before 2 two null (omega arith) refl (omega arith)
      ((1, one) ∷ []) one-Chain (omega arith)

two-Chain :
    Chain
      (write 2 (some (node two null)) (write 1 (some (node one 2)) []))
      ((1, one) ∷ (2, two) ∷ [])
two-Chain = (omega arith, refl, refl, (omega arith, refl, refl, tt))

pop-Chain_example :
    Popped
      (pop fresh 20 1)
      (write 2 (some (node two null)) (write 1 (some (node one 2)) []))
      ((1, one) ∷ [])
      2
      two
pop-Chain_example =
    pop-Chain fresh fresh-Allocates 20
      (write 2 (some (node two null)) (write 1 (some (node one 2)) [])) 2 two (omega arith)
      ((1, one) ∷ []) two-Chain (omega arith)

abbrev some_files : Stats
some_files = record zero_stats { nreg = 5; ndir = 2; nslink = 1 }

print_stat-shares_example :
    (s' : Stats) × (rows : List (ℕ × ℕ)) × (print_stat some_files ≡ some (s', rows))
    × (s' ≡ record some_files { ntotal = 8 })
    × (counts rows ≡ 5 ∷ 2 ∷ 0 ∷ 0 ∷ 0 ∷ 1 ∷ 0 ∷ [])
    × (94 ≤ shares rows)
    × (shares rows ≤ 100)
print_stat-shares_example = print_stat-shares some_files (omega arith) (omega arith)
