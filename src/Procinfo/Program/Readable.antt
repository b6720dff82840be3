-- ===== src/Procinfo/Program/Readable.antt =====
-- lab_04/part1/main.c: what the program writes for a process that it can read.
use os6_bmstu_iu.Common.{ℕ, List, [], ◌∷◌}
use os6_bmstu_iu.Procinfo.{Outcome, done}
use os6_bmstu_iu.Procinfo.Program.Contents.{Contents}

abbrev all_done : List (List ℕ) → List (Outcome (List ℕ))
all_done [] = []
all_done (t ∷ ts) = done t ∷ all_done ts
