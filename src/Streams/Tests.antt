-- ===== src/Streams/Tests.antt =====
-- The program of lab_05/src/app1.c on the alphabet: the second stream gets the last eight letters.
use os6_bmstu_iu.Common.{ℕ, ◌+◌, ◌≡◌, refl, some, List, codes, length, times}
use os6_bmstu_iu.Streams.{Streams, loop, main, round}
use os6_bmstu_iu.Streams.Shared.{main-times}

abbrev alphabet : List ℕ
alphabet = codes "Abcdefghijklmnopqrstuvwxyz"

main-times_example :
    (s : Streams) × (main (length alphabet + 1) alphabet ≡ some s)
    × ((c : ℕ) → times c s.out ≡ times c alphabet)
main-times_example = main-times alphabet

main_result :
    main 27 alphabet
    ≡ some (record {
      unread = codes "";
      buf1 = codes "";
      buf2 = codes "";
      out = codes "Asbtcudvewfxgyhzijklmnopqr";
    })
unfolding main loop round
main_result = refl
