-- ===== src/Dirwalk/Walk/Count.antt =====
-- Every name that the walk of lab_02/main.c prints is counted once.
use os6_bmstu_iu.Common.{ℕ, suc, ◌+◌, ◌≡◌, Bool, true, not, ◌||◌, List, [], ◌∷◌, ◌++◌, arith}
use os6_bmstu_iu.Dirwalk.Stats.{Stats}
use os6_bmstu_iu.Dirwalk.Stats.Counting.{total, is_counted, total-inc_stat}
use os6_bmstu_iu.Dirwalk.Files.{Name, Tree, missing, file, dir, Entries, end, entry, here, up}
use os6_bmstu_iu.Dirwalk.Walk.{Line, shown, no_opendir, no_chdir, no_readdir}
use os6_bmstu_iu.Dirwalk.Walk.Spec.{fails_all, listing, listings, tally, tallies}

-- The printed names, without the messages.
abbrev pub names_in : List Line → ℕ
names_in [] = 0
names_in (shown d c n ∷ ls) = suc (names_in ls)
names_in (no_opendir ∷ ls) = names_in ls
names_in (no_chdir ∷ ls) = names_in ls
names_in (no_readdir ∷ ls) = names_in ls

names_in-append : (xs ys : List Line) → names_in (xs ++ ys) ≡ names_in xs + names_in ys
names_in-append [] ys = omega arith
names_in-append (shown d c n ∷ ls) ys = omega (arith, names_in-append ls ys)
names_in-append (no_opendir ∷ ls) ys = names_in-append ls ys
names_in-append (no_chdir ∷ ls) ys = names_in-append ls ys
names_in-append (no_readdir ∷ ls) ys = names_in-append ls ys

-- Every file is of a kind that has a counter.
unfoldable mutual
  pub AreCounted : Tree → Type 0
  AreCounted missing = Unit {0}
  AreCounted (file m) = is_counted m ≡ true
  AreCounted (dir m a es) = AllCounted es

  pub AllCounted : Entries → Type 0
  AllCounted end = Unit {0}
  AllCounted (entry n t es) = AreCounted t × AllCounted es
  AllCounted (here es) = AllCounted es
  AllCounted (up es) = AllCounted es

mutual
  unfolding AreCounted listing tally

  tally-listing :
      (t : Tree) (e : Bool) (d : ℕ) (n : Name) (s : Stats)
      → AreCounted t
      → total (tally t s) ≡ total s + names_in (listing e d n t)
  tally-listing missing e d n s ok = omega arith
  tally-listing (file m) e d n s ok = ground (arith, total-inc_stat m s)
  tally-listing (dir m a es) e d n s ok =
      let s' = record s { ndir = s.ndir + 1 } in
      let inside = tallies-listings es ((e || not a.reads) || not a.closes) (d + 1) s' ok in
      ground (arith, inside)

  tallies-listings :
      (es : Entries) (e : Bool) (d : ℕ) (s : Stats)
      → AllCounted es
      → total (tallies es s) ≡ total s + names_in (listings e d es)
  tallies-listings end e d s ok = omega arith
  tallies-listings (here es) e d s ok = tallies-listings es e d s ok
  tallies-listings (up es) e d s ok = tallies-listings es e d s ok
  tallies-listings (entry n t es) e d s ok = omega (
    arith,
    tally-listing t (fails_all es e) d n (tallies es s) ok.0,
    tallies-listings es e d s ok.1,
    names_in-append (listings e d es) (listing (fails_all es e) d n t),
  )

-- A walk adds to the total of the counters the number of names that it prints, if every file is
-- of a kind that has a counter.
pub total-tally :
    (t : Tree) (e : Bool) (d : ℕ) (n : Name) (s : Stats)
    → AreCounted t
    → total (tally t s) ≡ total s + names_in (listing e d n t)
total-tally t e d n s ok = tally-listing t e d n s ok
