-- ===== src/Daemon/Process.antt =====
-- lab_01/main.c: the calls of one process, from daemonize to the loop of main. What the kernel
-- answers is a parameter.
pub mod Closed
pub mod Detached
use os6_bmstu_iu.Common.{
  ℕ, zero, suc, ◌+◌, ◌≡◌, Bool, true, false, not, ◌||◌, Option, none, some, List, [], ◌∷◌, ◌++◌, ℤ,
  pos, negsuc, is_negative, codes, set, get_elem?, if◌then◌else◌, ◌==◌,
}

-- What a descriptor stands for: a file that the process had, or /dev/null.
pub data File : Type 0 where
  inherited : ℕ → File
  dev_null : File

abbrev pub Table : Type 0
Table = List (Option File)

-- What happens to a SIGHUP.
pub data Disposition : Type 0 where
  default : Disposition
  ignored : Disposition

pub record Process : Type 0 where
  pub mode_mask : ℕ
  pub leads_session : Bool
  pub has_terminal : Bool
  pub on_hup : Disposition
  pub cwd : List ℕ
  pub fds : Table
  pub all_blocked : Bool

-- A process that has ended with a status, or that goes on.
pub data Outcome : Type 0 where
  exited : ℕ → Outcome
  going_on : Process → Outcome

infixl 5 ◌>>=◌
abbrev pub ◌>>=◌ : Outcome → (Process → Outcome) → Outcome
exited n >>= f = exited n
going_on p >>= f = f p

-- `err_quit` and `err_exit` print a message and end the process.
abbrev pub err_quit : Outcome
err_quit = exited 1

-- `close(i)`
abbrev pub close : ℕ → Table → Table
close i fds = set fds i none

-- `for (int i = 0; i < rlim_max; i++) close(i);` from `i` on, for `n` rounds.
unfoldable pub close_from : ℕ → ℕ → Table → Table
close_from zero i fds = fds
close_from (suc n) i fds = close_from n (i + 1) (close i fds)

-- The lowest free descriptor gets the file; -1 if there is none.
abbrev pub next_fd : ℤ → ℤ
next_fd (pos n) = pos (n + 1)
next_fd (negsuc n) = negsuc n

unfoldable pub allocate : File → Table → ℤ × Table
allocate f [] = (negsuc 0, [])
allocate f (none ∷ fds) = (pos 0, some f ∷ fds)
allocate f (some g ∷ fds) = let r = allocate f fds in (next_fd (r.0), some g ∷ r.1)

-- `open("/dev/null", O_RDWR)`, which may fail.
unfoldable pub open_null : (opens : Bool) → Table → ℤ × Table
unfolding allocate
open_null opens fds = if opens then allocate dev_null fds else (negsuc 0, fds)

-- `dup(0)`
unfoldable pub dup_0 : Table → ℤ × Table
unfolding allocate
dup_0 fds = elim (get_elem? fds 0) [
  | none ↦ (negsuc 0, fds)
  | some none ↦ (negsuc 0, fds)
  | some (some f) ↦ allocate f fds
]

abbrev pub is_fd : ℕ → ℤ → Bool
is_fd n (pos m) = m == n
is_fd n (negsuc m) = false

-- How the kernel answers the calls of `daemonize`: the limit of descriptors is `none` for
-- RLIM_INFINITY, and `fork` gives 0 to the child.
pub record Answers : Type 0 where
  pub getrlimit : Bool
  pub rlim_max : Option ℕ
  pub fork : ℤ
  pub setsid : Bool
  pub sigaction : Bool
  pub chdir : Bool
  pub opens_null : Bool

abbrev pub limit_of : Option ℕ → ℕ
limit_of none = 1024
limit_of (some n) = n

-- `umask`, `getrlimit` and `fork`: the parent ends with 0.
unfoldable pub fork_child : Answers → Process → Outcome
fork_child a p =
    let p = record p { mode_mask = 0 } in
    if not a.getrlimit
    then err_quit
    else elim a.fork [ negsuc e ↦ err_quit | pos zero ↦ going_on p | pos (suc pid) ↦ exited 0 ]

-- `setsid`, `sigaction` and `chdir`.
unfoldable pub leave_session : Answers → Process → Outcome
leave_session a p =
    if not a.setsid
    then err_quit
    else let p = record p { leads_session = true; has_terminal = false } in
      if not a.sigaction
      then err_quit
      else let p = record p { on_hup = ignored } in
        if not a.chdir then err_quit else going_on (record p { cwd = codes "/" })

-- The closing of all descriptors, and /dev/null on the first three.
unfoldable pub redirect : Answers → Process → Outcome
unfolding close_from open_null dup_0
redirect a p =
    let closed = close_from (limit_of a.rlim_max) 0 p.fds in
    let (fd0, fds0) = open_null a.opens_null closed in
    let (fd1, fds1) = dup_0 fds0 in
    let (fd2, fds2) = dup_0 fds1 in
    if not (is_fd 0 fd0) || (not (is_fd 1 fd1) || not (is_fd 2 fd2))
    then exited 1
    else going_on (record p { fds = fds2 })

-- `daemonize`
unfoldable pub daemonize : Answers → Process → Outcome
daemonize a p = fork_child a p >>= leave_session a >>= redirect a
