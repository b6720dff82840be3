-- ===== src/Dirwalk/Samples.antt =====
-- An allocator, and directories on which every call succeeds, for the tests of lab_02.
use os6_bmstu_iu.Common.{suc, ◌<◌, ◌≡◌, refl, true, none, [], ◌∷◌, arith, ltb, if◌then◌else◌}
use os6_bmstu_iu.Dirwalk.Memory.{Ptr, Mem, cell, Allocates}
use os6_bmstu_iu.Dirwalk.Files.{Access}

-- The highest address in use, and the allocator that takes the next one.
abbrev pub top : Mem → Ptr
top [] = 0
top ((p, c) ∷ m) = if ltb p (top m) then top m else p

abbrev pub fresh : Mem → Ptr
fresh m = suc (top m)

cell-above : (a : Ptr) (m : Mem) → top m < a → cell a m ≡ none
cell-above a [] h = refl
cell-above a ((p, c) ∷ m) h = ground (arith, cell-above a m)

pub fresh-Allocates : Allocates fresh
fresh-Allocates m = (omega arith, cell-above (fresh m) m (omega arith))

abbrev pub all_open : Access
all_open = record { opens = true; enters = true; reads = true; closes = true }
