-- ===== src/Dirwalk/Stats/Counting.antt =====
-- What `incStat` of lab_02/lib/statistics.c does to each counter.
use os6_bmstu_iu.Common.{ℕ, ◌+◌, ◌≡◌, Bool, ◌||◌, ◌==◌, if◌then◌else◌, arith}
use os6_bmstu_iu.Dirwalk.Stats.{
  Stats, s_ififo, s_ifchr, s_ifblk, s_ifreg, s_iflnk, s_ifsock, file_type, inc_stat,
}

-- The kinds of files that `incStat` counts.
pub data Kind : Type 0 where
  regular block char fifo link socket : Kind

abbrev pub code_of : Kind → ℕ
code_of Kind.regular = s_ifreg
code_of Kind.block = s_ifblk
code_of Kind.char = s_ifchr
code_of Kind.fifo = s_ififo
code_of Kind.link = s_iflnk
code_of Kind.socket = s_ifsock

abbrev pub counter : Kind → Stats → ℕ
counter Kind.regular s = s.nreg
counter Kind.block s = s.nblk
counter Kind.char s = s.nchr
counter Kind.fifo s = s.nfifo
counter Kind.link s = s.nslink
counter Kind.socket s = s.nsock

-- The file type is one that `incStat` counts.
abbrev pub is_counted : ℕ → Bool
is_counted mode =
    (file_type mode == s_ifreg)
    || (file_type mode == s_ifblk)
    || (file_type mode == s_ifchr)
    || (file_type mode == s_ififo)
    || (file_type mode == s_iflnk)
    || (file_type mode == s_ifsock)

-- The sum that `printStat` takes.
abbrev pub total : Stats → ℕ
total s = s.nreg + s.nchr + s.nblk + s.nfifo + s.nslink + s.nsock + s.ndir

-- `inc_stat` adds one to the counter of the file's kind, and leaves every other counter, the
-- directories and the total as they were.
pub counter-inc_stat :
    (k : Kind) (mode : ℕ) (s : Stats)
    → (counter k (inc_stat mode s)
        ≡ (if file_type mode == code_of k then counter k s + 1 else counter k s))
      × ((inc_stat mode s).ndir ≡ s.ndir)
      × ((inc_stat mode s).ntotal ≡ s.ntotal)
unfolding inc_stat
counter-inc_stat Kind.regular mode s = ground arith
counter-inc_stat Kind.block mode s = ground arith
counter-inc_stat Kind.char mode s = ground arith
counter-inc_stat Kind.fifo mode s = ground arith
counter-inc_stat Kind.link mode s = ground arith
counter-inc_stat Kind.socket mode s = ground arith

pub total-inc_stat :
    (mode : ℕ) (s : Stats)
    → total (inc_stat mode s) ≡ (if is_counted mode then total s + 1 else total s)
unfolding inc_stat
total-inc_stat mode s = ground arith
