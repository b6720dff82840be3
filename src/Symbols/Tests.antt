-- ===== src/Symbols/Tests.antt =====
-- lab_03/part2: md1 is loaded before md2 and not unloaded while md2 is there.
use os6_bmstu_iu.Common.{◌≡◌, refl, true, false, List, [], ◌∷◌}
use os6_bmstu_iu.Symbols.{
  md1, md2, md3, Loader, IsLoader, loaded_after, left_after, md_init, Command, load, unload, run,
}
use os6_bmstu_iu.Symbols.Orders.{IsLoaded, run-IsLoaded}

abbrev loader : Loader
loader = record {
  insmod = λ m k. record { loaded = loaded_after m k.loaded; log = k.log };
  rmmod = λ m k. record { loaded = left_after m k.loaded; log = k.log };
}

loader-IsLoader : IsLoader loader
loader-IsLoader = record { loads = λ m k. refl; leaves = λ m k. refl }

abbrev commands : List Command
commands = load md2 ∷ load md1 ∷ load md2 ∷ unload md1 ∷ load md3 ∷ []

run-IsLoaded_example :
    IsLoaded (run loader commands (record { loaded = λ m. false; log = [] })).loaded (true, true)
run-IsLoaded_example = run-IsLoaded loader commands [] loader-IsLoader

-- md1 is still loaded.
stays : (run loader commands (record { loaded = λ m. false; log = [] })).loaded md1 ≡ true
unfolding run loaded_after left_after md_init
stays = refl
