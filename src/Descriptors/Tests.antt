-- ===== src/Descriptors/Tests.antt =====
-- lab_05/src/app2.c: a file of two bytes.
use os6_bmstu_iu.Common.{◌≡◌, some, ◌++◌, codes, [], ◌∷◌, length, suc}
use os6_bmstu_iu.Descriptors.{main}
use os6_bmstu_iu.Descriptors.Doubled.{doubled, main-doubled}

main-doubled_example :
    main (suc (length (codes "AB"))) (some (codes "AB")) (some (codes "AB"))
    ≡ some (doubled (codes "AB") ++ (10 ∷ []))
main-doubled_example = main-doubled (codes "AB")
