-- ===== src/Dirwalk/Stats.antt =====
-- lab_02/lib/statistics.c: counters of the kinds of files. The counters are `long`, which no
-- number of files that fits on a disk exceeds, so they are plain numbers here.
pub mod Counting
pub mod Table
use os6_bmstu_iu.Common.{
  ℕ, ◌+◌, ◌*◌, ◌/◌, ◌%◌, ◌^◌, Option, none, some, List, [], ◌∷◌, ltb, ◌==◌, if◌then◌else◌, ◌>>=◌,
}

-- `stat_t`
pub record Stats : Type 0 where
  pub nreg : ℕ
  pub ndir : ℕ
  pub nblk : ℕ
  pub nchr : ℕ
  pub nfifo : ℕ
  pub nslink : ℕ
  pub nsock : ℕ
  pub ntotal : ℕ

-- `static stat_t stats;`
abbrev pub zero_stats : Stats
zero_stats = record {
  nreg = 0;
  ndir = 0;
  nblk = 0;
  nchr = 0;
  nfifo = 0;
  nslink = 0;
  nsock = 0;
  ntotal = 0;
}

-- The file types of `sys/stat.h`.
abbrev pub s_ififo : ℕ
s_ififo = 0x1000

abbrev pub s_ifchr : ℕ
s_ifchr = 0x2000

abbrev pub s_ifdir : ℕ
s_ifdir = 0x4000

abbrev pub s_ifblk : ℕ
s_ifblk = 0x6000

abbrev pub s_ifreg : ℕ
s_ifreg = 0x8000

abbrev pub s_iflnk : ℕ
s_iflnk = 0xa000

abbrev pub s_ifsock : ℕ
s_ifsock = 0xc000

-- `mode & S_IFMT`: bits 12 to 15.
abbrev pub file_type : ℕ → ℕ
file_type mode = mode / 2 ^ 12 % 2 ^ 4 * 2 ^ 12

unfoldable pub inc_stat : ℕ → Stats → Stats
inc_stat mode stats =
    let t = file_type mode in
    if t == s_ifreg
    then record stats { nreg = stats.nreg + 1 }
    else if t == s_ifblk
    then record stats { nblk = stats.nblk + 1 }
    else if t == s_ifchr
    then record stats { nchr = stats.nchr + 1 }
    else if t == s_ififo
    then record stats { nfifo = stats.nfifo + 1 }
    else if t == s_iflnk
    then record stats { nslink = stats.nslink + 1 }
    else if t == s_ifsock
    then record stats { nsock = stats.nsock + 1 }
    else stats

-- A `long` as an `int` argument, where it fits.
abbrev pub to_int : ℕ → Option ℕ
to_int n = if ltb n (2 ^ 31) then some n else none

-- `part * 100 / all`; `none` is an overflow of `int` or a division by zero.
unfoldable pub find_percent : ℕ → ℕ → Option ℕ
find_percent part all =
    if ltb (part * 100) (2 ^ 31) then if all == 0 then none else some (part * 100 / all) else none

-- One line of the table: a counter and its share.
unfoldable pub row : ℕ → ℕ → Option (ℕ × ℕ)
unfolding find_percent
row count total = do
  part ← to_int count
  all ← to_int total
  percent ← find_percent part all
  some (count, percent)

-- The counters with the total, and the lines of the table; `none` where the program stops.
unfoldable pub print_stat : Stats → Option (Stats × List (ℕ × ℕ))
unfolding row
print_stat stats = do
  let ntotal =
      stats.nreg + stats.nchr + stats.nblk + stats.nfifo + stats.nslink + stats.nsock + stats.ndir
  reg ← row stats.nreg ntotal
  dir ← row stats.ndir ntotal
  blk ← row stats.nblk ntotal
  chr ← row stats.nchr ntotal
  fifo ← row stats.nfifo ntotal
  slink ← row stats.nslink ntotal
  sock ← row stats.nsock ntotal
  some (record stats { ntotal = ntotal }, reg ∷ dir ∷ blk ∷ chr ∷ fifo ∷ slink ∷ sock ∷ [])
