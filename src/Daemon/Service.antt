-- ===== src/Daemon/Service.antt =====
-- lab_01/main.c: the lock file, the thread that waits for signals, and main.
pub mod Signals
use os6_bmstu_iu.Common.{
  ℕ, zero, suc, ◌≡◌, Bool, true, false, not, ◌||◌, Option, none, some, List, [], ◌∷◌, ◌++◌, ℤ, pos,
  negsuc, is_negative, codes, if◌then◌else◌, ◌==◌, print,
}
use os6_bmstu_iu.Daemon.Process.{
  Process, Disposition, default, Outcome, exited, going_on, err_quit, ◌>>=◌, Answers, daemonize,
}

-- What `open` of the lock file gives, whether `fcntl` grants the lock, and the error if it does not.
pub record Lock : Type 0 where
  pub fd : ℤ
  pub granted : Bool
  pub errno : ℕ

-- `EACCES` and `EAGAIN`
abbrev pub eacces : ℕ
eacces = 13

abbrev pub eagain : ℕ
eagain = 11

-- How `already_running` ends: the process ends, another daemon has the lock, or the file has been
-- locked and holds these bytes.
pub data Attempt : Type 0 where
  ends : ℕ → Attempt
  taken : Attempt
  locked : List ℕ → Attempt

-- `already_running`
unfoldable pub already_running : Lock → (pid : ℕ) → Attempt
already_running l pid =
    if is_negative l.fd
    then ends 1
    else if not l.granted
    then (if l.errno == eacces || l.errno == eagain then taken else ends 1)
    else locked (print pid ++ (0 ∷ []))

-- What `sigwait` gives: an error, or a signal.
pub data Waited : Type 0 where
  error : Waited
  got : ℕ → Waited

abbrev pub sighup : ℕ
sighup = 1

abbrev pub sigterm : ℕ
sigterm = 15

-- What the thread writes to the log.
pub data Entry : Type 0 where
  wait_failed : Entry
  hup : Entry
  term : Entry
  unexpected : ℕ → Entry

-- The thread after some signals: it waits, or it has ended the process with a status, and has
-- removed the lock file or not.
pub data Thread : Type 0 where
  waiting : List Entry → Thread
  ended : (status : ℕ) → (removed : Bool) → List Entry → Thread

-- `thr_fn`, with what it has written so far.
unfoldable pub thr_fn : List Entry → List Waited → Thread
thr_fn log [] = waiting log
thr_fn log (error ∷ ws) = ended 1 false (log ++ (wait_failed ∷ []))
thr_fn log (got signo ∷ ws) =
    let after_hup = thr_fn (log ++ (hup ∷ [])) ws in
    let after_other = thr_fn (log ++ (unexpected signo ∷ [])) ws in
    if signo == sighup
    then after_hup
    else if signo == sigterm
    then ended 0 true (log ++ (term ∷ []))
    else after_other

-- How the kernel answers the rest of `main`.
pub record Start : Type 0 where
  pub lock : Lock
  pub pid : ℕ
  pub sigaction : Bool
  pub sigmask : Bool
  pub create : Bool

-- A daemon in its loop: the process, and what it has written to the lock file.
pub data Service : Type 0 where
  stopped : ℕ → Service
  serving : Process → (lock_file : List ℕ) → Service

-- `main` from the signals on: the daemon hears SIGHUP again, blocks all signals for its threads and
-- starts the one that waits for them. A call that fails changes nothing.
unfoldable pub start_thread : Start → Process → List ℕ → Service
start_thread s p file =
    let heard = if s.sigaction then record p { on_hup = default } else p in
    let blocked = if s.sigmask then record heard { all_blocked = true } else heard in
    if not s.sigaction
    then stopped 1
    else if not s.sigmask
    then stopped 1
    else if not s.create
    then stopped 1
    else serving blocked file

-- `main` from the lock on.
unfoldable pub serve : Start → Process → Service
serve s p = elim (already_running s.lock s.pid) [
  | ends n ↦ stopped n
  | taken ↦ stopped 1
  | locked file ↦ start_thread s p file
]

-- `main`
unfoldable pub main : Answers → Start → Process → Service
main a s p = elim (daemonize a p) [ exited n ↦ stopped n | going_on p' ↦ serve s p' ]
