-- ===== src/Daemon/Service/Signals.antt =====
-- lab_01/main.c: what the daemon needs to serve, and how its thread answers signals.
use os6_bmstu_iu.Common.{
  ℕ, ◌≡◌, refl, ap, sym, ◌∙◌, Bool, true, false, not, ◌||◌, List, [], ◌∷◌, ◌++◌, append_assoc,
  append-nil, ℤ, pos, negsuc, is_negative, if◌then◌else◌, ◌==◌, print, spell, spell-print,
  Bool-cases, inl, inr,
}
use os6_bmstu_iu.Daemon.Process.{Process, default, Outcome, exited, going_on, Answers, daemonize}
use os6_bmstu_iu.Daemon.Process.Detached.{Answered, daemonize-Answered}
use os6_bmstu_iu.Daemon.Service.{
  Lock, Attempt, ends, taken, locked, already_running, Waited, got, eacces, eagain, start_thread,
  sighup, sigterm, Entry, hup, term, unexpected, ended, thr_fn, Start, stopped, serving, serve,
  main,
}

-- What is known of a daemon in its loop.
pub record IsServing (a : Answers) (s : Start) (p' : Process) (file : List ℕ) : Type 0 where
  pub answered : Answered a
  pub opened : is_negative s.lock.fd ≡ false
  pub granted : s.lock.granted ≡ true
  pub action : s.sigaction ≡ true
  pub mask : s.sigmask ≡ true
  pub thread : s.create ≡ true
  pub hears : p'.on_hup ≡ default
  pub blocked : p'.all_blocked ≡ true
  pub digits : List ℕ
  pub ended_by_zero : file ≡ digits ++ (0 ∷ [])
  pub spells_pid : spell 0 digits ≡ s.pid

-- The lock is had, and the file holds the pid and a zero, whatever stood in it.
already_running-locked :
    (l : Lock) (pid : ℕ) (file : List ℕ)
    → already_running l pid ≡ locked file
    → (is_negative l.fd ≡ false) × (l.granted ≡ true) × (file ≡ print pid ++ (0 ∷ []))
unfolding already_running
already_running-locked l pid file e =
    by_answers l.fd l.granted (l.errno == eacces || l.errno == eagain) e
  where
    by_answers :
        (fd : ℤ) (granted other : Bool)
        → (if is_negative fd
            then ends 1
            else if not granted
            then (if other then taken else ends 1)
            else locked (print pid ++ (0 ∷ [])))
          ≡ locked file
        → (is_negative fd ≡ false) × (granted ≡ true) × (file ≡ print pid ++ (0 ∷ []))
    by_answers (negsuc n) granted other e = cc
    by_answers (pos n) true other e = (refl, refl, cc)
    by_answers (pos n) false true e = cc
    by_answers (pos n) false false e = cc

-- The calls behind the lock are answered.
abbrev Started : Start → Type 0
Started s = (s.sigaction ≡ true) × (s.sigmask ≡ true) × (s.create ≡ true)

start_thread-serving :
    (s : Start) (p p' : Process) (file file' : List ℕ)
    → start_thread s p file ≡ serving p' file'
    → (p' ≡ record p { on_hup = default; all_blocked = true }) × (file' ≡ file) × Started s
unfolding start_thread
start_thread-serving s p p' file file' e = by_answers s.sigaction s.sigmask s.create e
  where
    by_answers :
        (action sigmask create : Bool)
        → start_thread (record s { sigaction = action; sigmask = sigmask; create = create }) p file
          ≡ serving p' file'
        → (p' ≡ record p { on_hup = default; all_blocked = true })
          × (file' ≡ file)
          × Started (record s { sigaction = action; sigmask = sigmask; create = create })
    by_answers true true true e = (cc, cc, (refl, refl, refl))
    by_answers true true false e = cc
    by_answers true false create e = cc
    by_answers false sigmask create e = cc

serve-serving :
    (s : Start) (p p' : Process) (file' : List ℕ)
    → serve s p ≡ serving p' file'
    → (already_running s.lock s.pid ≡ locked file')
      × (p' ≡ record p { on_hup = default; all_blocked = true })
      × Started s
unfolding serve
serve-serving s p p' file' e = by_lock (already_running s.lock s.pid) e
  where
    by_lock :
        (r : Attempt)
        → (elim r [ ends n ↦ stopped n | taken ↦ stopped 1 | locked file ↦ start_thread s p file ])
          ≡ serving p' file'
        → (r ≡ locked file') × (p' ≡ record p { on_hup = default; all_blocked = true }) × Started s
    by_lock (ends n) e = cc
    by_lock taken e = cc
    by_lock (locked file) e =
        let (same, written, started) = start_thread-serving s p p' file file' e in
        (ap locked (sym written), same, started)

-- A daemon comes to its loop only if every call of `daemonize` was answered, the lock was granted,
-- and sigaction, pthread_sigmask and pthread_create were answered; its lock file then holds the digits
-- of its pid and a zero, it hears SIGHUP again, and all signals are blocked for it.
pub main-IsServing :
    (a : Answers) (s : Start) (p p' : Process) (file : List ℕ)
    → main a s p ≡ serving p' file
    → IsServing a s p' file
unfolding main
main-IsServing a s p p' file e =
    let (q, daemon, served) = by_outcome (daemonize a p) refl e in
    let (lock, after, (action, mask, thread)) = serve-serving s q p' file served in
    let (opened, granted, written) = already_running-locked s.lock s.pid file lock in
    record {
      answered = daemonize-Answered a p q daemon;
      opened = opened;
      granted = granted;
      action = action;
      mask = mask;
      thread = thread;
      hears = ap (λ r. r.on_hup) after;
      blocked = ap (λ r. r.all_blocked) after;
      digits = print s.pid;
      ended_by_zero = written;
      spells_pid = spell-print s.pid;
    }
  where
    by_outcome :
        (o : Outcome)
        → daemonize a p ≡ o
        → (elim o [ exited n ↦ stopped n | going_on q ↦ serve s q ]) ≡ serving p' file
        → (q : Process) × (daemonize a p ≡ going_on q) × (serve s q ≡ serving p' file)
    by_outcome (exited n) same e = cc
    by_outcome (going_on q) same e = (q, same, e)

-- What the thread writes for a signal that does not end it.
abbrev pub answer : ℕ → Entry
answer signo = if signo == sighup then hup else unexpected signo

abbrev pub answers : List ℕ → List Entry
answers [] = []
answers (signo ∷ rest) = answer signo ∷ answers rest

abbrev pub NoTerm : List ℕ → Type 0
NoTerm [] = Unit {0}
NoTerm (signo ∷ rest) = (signo == sigterm ≡ false) × NoTerm rest

abbrev pub each_got : List ℕ → List Waited
each_got [] = []
each_got (signo ∷ rest) = got signo ∷ each_got rest

-- While no SIGTERM comes, the thread answers each signal in order and goes on with what follows.
pub thr_fn-append :
    (signals : List ℕ) (log : List Entry) (after : List Waited)
    → NoTerm signals
    → thr_fn log (each_got signals ++ after) ≡ thr_fn (log ++ answers signals) after
unfolding thr_fn
thr_fn-append [] log after none_term = rw append-nil refl
thr_fn-append (signo ∷ rest) log after none_term = elim (Bool-cases (signo == sighup)) [
  | inl is_hup ↦ rw is_hup (
      thr_fn-append rest (log ++ (hup ∷ [])) after (none_term.1)
      ∙ ap (λ l. thr_fn l after) (append_assoc log (hup ∷ []) (answers rest)))
  | inr other ↦
      rw (other, none_term.0)
        (thr_fn-append rest (log ++ (unexpected signo ∷ [])) after (none_term.1)
          ∙ ap (λ l. thr_fn l after) (append_assoc log (unexpected signo ∷ []) (answers rest)))
]

-- The first SIGTERM ends the process with 0 and removes the lock file, whatever signals came before
-- it, each of which has been answered in order, and whatever would have followed it.
pub thr_fn-term :
    (signals : List ℕ) (log : List Entry) (after : List Waited)
    → NoTerm signals
    → thr_fn log (each_got signals ++ (got sigterm ∷ after))
      ≡ ended 0 true ((log ++ answers signals) ++ (term ∷ []))
unfolding thr_fn
thr_fn-term signals log after none_term = thr_fn-append signals log (got sigterm ∷ after) none_term
