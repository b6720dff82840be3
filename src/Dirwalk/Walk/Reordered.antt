-- ===== src/Dirwalk/Walk/Reordered.antt =====
-- lab_02/main.c: trees that differ in the order of their entries, and what is counted in them.
use os6_bmstu_iu.Common.{ℕ, ◌+◌, ◌≡◌, refl, ap, sym, ◌∙◌, arith, Bool-cases, inl, inr}
use os6_bmstu_iu.Dirwalk.Stats.{Stats, zero_stats, inc_stat}
use os6_bmstu_iu.Dirwalk.Files.{
  Name, Access, Tree, missing, file, dir, Entries, end, entry, here, up,
}
use os6_bmstu_iu.Dirwalk.Walk.Spec.{tally, tallies}

mutual
  -- Two trees that differ in the order of the entries at most.
  pub data SameTree : Tree → Tree → Type 0 where
    same_missing : SameTree missing missing
    same_file : (mode : ℕ) → SameTree (file mode) (file mode)
    same_dir :
        (mode : ℕ) (a : Access) {es es' : Entries}
        → SameEntries es es'
        → SameTree (dir mode a es) (dir mode a es')

  pub data SameEntries : Entries → Entries → Type 0 where
    same_end : SameEntries end end
    same_entry :
        (n : Name) {t t' : Tree} {es es' : Entries}
        → SameTree t t'
        → SameEntries es es'
        → SameEntries (entry n t es) (entry n t' es')
    same_here : {es es' : Entries} → SameEntries es es' → SameEntries (here es) (here es')
    same_up : {es es' : Entries} → SameEntries es es' → SameEntries (up es) (up es')
    swap :
        (n k : Name) (t u : Tree) (es : Entries)
        → SameEntries (entry n t (entry k u es)) (entry k u (entry n t es))
    swap_here :
        (n : Name) (t : Tree) (es : Entries)
        → SameEntries (entry n t (here es)) (here (entry n t es))
    swap_up :
        (n : Name) (t : Tree) (es : Entries) → SameEntries (entry n t (up es)) (up (entry n t es))
    back : {es es' : Entries} → SameEntries es es' → SameEntries es' es
    both : {es fs gs : Entries} → SameEntries es fs → SameEntries fs gs → SameEntries es gs

-- The counters of two walks together.
plus : Stats → Stats → Stats
plus a b = record {
  nreg = a.nreg + b.nreg;
  ndir = a.ndir + b.ndir;
  nblk = a.nblk + b.nblk;
  nchr = a.nchr + b.nchr;
  nfifo = a.nfifo + b.nfifo;
  nslink = a.nslink + b.nslink;
  nsock = a.nsock + b.nsock;
  ntotal = a.ntotal + b.ntotal;
}

plus_swap : (a b c : Stats) → plus a (plus b c) ≡ plus b (plus a c)
unfolding plus
plus_swap a b c = ground arith

inc_stat-plus : (mode : ℕ) (a b : Stats) → inc_stat mode (plus a b) ≡ plus (inc_stat mode a) b
unfolding inc_stat plus
inc_stat-plus mode a b = ground arith

count_dir : Stats → Stats
count_dir s = record s { ndir = s.ndir + 1 }

count_dir-plus : (a b : Stats) → count_dir (plus a b) ≡ plus (count_dir a) b
unfolding count_dir plus
count_dir-plus a b = ground arith

mutual
  unfolding tally count_dir

  tally-plus : (t : Tree) (a b : Stats) → tally t (plus a b) ≡ plus (tally t a) b
  tally-plus missing a b = refl
  tally-plus (file m) a b = inc_stat-plus m a b
  tally-plus (dir m acc es) a b = elim (Bool-cases acc.opens) [
    | inr shut ↦ rw shut (count_dir-plus a b)
    | inl open_ok ↦ elim (Bool-cases acc.enters) [
      | inr barred ↦ rw (open_ok, barred) (count_dir-plus a b)
      | inl enters ↦
          rw (open_ok, enters)
            (ap (tallies es) (count_dir-plus a b) ∙ tallies-plus es (count_dir a) b)
    ]
  ]

  tallies-plus : (es : Entries) (a b : Stats) → tallies es (plus a b) ≡ plus (tallies es a) b
  tallies-plus end a b = refl
  tallies-plus (here es) a b = tallies-plus es a b
  tallies-plus (up es) a b = tallies-plus es a b
  tallies-plus (entry n t es) a b =
      ap (tally t) (tallies-plus es a b) ∙ tally-plus t (tallies es a) b

from_zero : (s : Stats) → plus zero_stats s ≡ s
unfolding plus
from_zero s = ground arith

-- Two trees can be counted in either order.
tally_comm : (t u : Tree) (s : Stats) → tally t (tally u s) ≡ tally u (tally t s)
tally_comm t u s =
    alone t (tally u s)
    ∙ ap (plus (tally t zero_stats)) (alone u s)
    ∙ plus_swap (tally t zero_stats) (tally u zero_stats) s
    ∙ sym (alone u (tally t s) ∙ ap (plus (tally u zero_stats)) (alone t s))
  where
    alone : (t : Tree) (s : Stats) → tally t s ≡ plus (tally t zero_stats) s
    alone t s = ap (tally t) (sym (from_zero s)) ∙ tally-plus t zero_stats s

mutual
  unfolding tally

  pub tally-SameTree : {t t' : Tree} → SameTree t t' → (s : Stats) → tally t s ≡ tally t' s
  tally-SameTree same_missing s = refl
  tally-SameTree (same_file mode) s = refl
  tally-SameTree (same_dir mode a h) s = rw (tallies-SameEntries h (record s { ndir = s.ndir + 1 }))

  tallies-SameEntries :
      {es es' : Entries} → SameEntries es es' → (s : Stats) → tallies es s ≡ tallies es' s
  tallies-SameEntries same_end s = refl
  tallies-SameEntries (same_entry n {t = t} {es' = es'} h hs) s =
      ap (tally t) (tallies-SameEntries hs s) ∙ tally-SameTree h (tallies es' s)
  tallies-SameEntries (same_here hs) s = tallies-SameEntries hs s
  tallies-SameEntries (same_up hs) s = tallies-SameEntries hs s
  tallies-SameEntries (swap n k t u es) s = tally_comm t u (tallies es s)
  tallies-SameEntries (swap_here n t es) s = refl
  tallies-SameEntries (swap_up n t es) s = refl
  tallies-SameEntries (back h) s = sym (tallies-SameEntries h s)
  tallies-SameEntries (both h k) s = tallies-SameEntries h s ∙ tallies-SameEntries k s
