-- ===== src/Dirwalk/Order/Tests.antt =====
-- Two orders of the entries of one directory.
use os6_bmstu_iu.Common.{◌+◌, ◌*◌, ◌<◌, ◌≡◌, refl, [], ◌∷◌, codes, arith}
use os6_bmstu_iu.Dirwalk.Files.{file, dir, Entries, end, entry, here, up, Place}
use os6_bmstu_iu.Dirwalk.Walk.Spec.{IsTree, room}
use os6_bmstu_iu.Dirwalk.Walk.Result.{IsStart}
use os6_bmstu_iu.Dirwalk.Walk.Reordered.{same_dir, same_here, same_up, swap}
use os6_bmstu_iu.Dirwalk.Program.{stack_ops}
use os6_bmstu_iu.Dirwalk.Samples.{fresh, fresh-Allocates, all_open}
use os6_bmstu_iu.Dirwalk.Order.{run_at, main-SameTree}

-- "/w" holds a regular file "a" and a FIFO "b", which `readdir` gives in this order or in the other.
abbrev a_first : Entries
a_first = here (up (entry (codes "a") (file 0x81a4) (entry (codes "b") (file 0x11a4) end)))

abbrev b_first : Entries
b_first = here (up (entry (codes "b") (file 0x11a4) (entry (codes "a") (file 0x81a4) end)))

abbrev at : Entries → Place
at es = record { path = codes "/w"; tree = dir 0x41ed all_open es; above = end ∷ [] }

a_first-IsStart : IsStart (stack_ops fresh fresh-Allocates (at a_first) 20) (at a_first)
unfolding IsTree room
a_first-IsStart = record {
  fits = omega arith;
  not_dotdot = refl;
  proper = (
    refl,
    (
      record { fits = omega arith; not_dot = refl; not_dotdot = refl; not_path = refl },
      refl,
      refl,
      (
        record { fits = omega arith; not_dot = refl; not_dotdot = refl; not_path = refl },
        refl,
        refl,
        tt,
      ),
    ),
  );
  enough = omega arith;
}

b_first-IsStart : IsStart (stack_ops fresh fresh-Allocates (at b_first) 20) (at b_first)
unfolding IsTree room
b_first-IsStart = record {
  fits = omega arith;
  not_dotdot = refl;
  proper = (
    refl,
    (
      record { fits = omega arith; not_dot = refl; not_dotdot = refl; not_path = refl },
      refl,
      refl,
      (
        record { fits = omega arith; not_dot = refl; not_dotdot = refl; not_path = refl },
        refl,
        refl,
        tt,
      ),
    ),
  );
  enough = omega arith;
}

few : (1 + 2 * room ((at a_first).tree) < 20) × (1 + 2 * room ((at b_first).tree) < 10)
unfolding room
few = omega arith

main-SameTree_example :
    run_at fresh fresh-Allocates (at a_first) (dir 0x41ed all_open b_first) 20 (at a_first) 20
    ≡ run_at fresh fresh-Allocates (at a_first) (dir 0x41ed all_open b_first) 20 (at b_first) 10
main-SameTree_example =
    main-SameTree fresh fresh-Allocates (at a_first) (dir 0x41ed all_open b_first) 20 20 10
      (same_dir 0x41ed all_open
        (same_here (same_up (swap (codes "a") (codes "b") (file 0x81a4) (file 0x11a4) end))))
      a_first-IsStart b_first-IsStart (few.0) (few.1)
