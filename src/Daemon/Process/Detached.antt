-- ===== src/Daemon/Process/Detached.antt =====
-- lab_01/main.c: what a process is after daemonize.
use os6_bmstu_iu.Common.{
  ℕ, zero, suc, ◌≤◌, ◌<◌, ◌≡◌, inr, refl, ap, sym, ◌∙◌, Bool, true, false, Option, none, some, ◌∷◌,
  ℤ, pos, negsuc, arith, codes, length, get_elem?,
}
use os6_bmstu_iu.Daemon.Process.{
  File, dev_null, Table, ignored, Process, Outcome, exited, going_on, ◌>>=◌, close_from, allocate,
  open_null, dup_0, limit_of, Answers, fork_child, leave_session, redirect, daemonize,
}
use os6_bmstu_iu.Daemon.Process.Closed.{close_from-outside, close_from-inside, three_free}

abbrev null_fd : Option File
null_fd = some dev_null

-- A process that has become a daemon: it creates files with any mode, leads a session without a
-- terminal, ignores SIGHUP and stands in the root; its first three descriptors are /dev/null, the
-- others below the limit are closed, and those from the limit on are what they were.
pub record IsDaemon (limit : ℕ) (before after : Process) : Type 0 where
  pub any_mode : after.mode_mask ≡ 0
  pub leads : after.leads_session ≡ true
  pub no_terminal : after.has_terminal ≡ false
  pub deaf : after.on_hup ≡ ignored
  pub in_root : after.cwd ≡ codes "/"
  pub null : (j : ℕ) → j < 3 → get_elem? after.fds j ≡ some (some dev_null)
  pub closed :
      (j : ℕ) → 3 ≤ j → j < limit → j < length before.fds → get_elem? after.fds j ≡ some none
  pub kept : (j : ℕ) → limit ≤ j → get_elem? after.fds j ≡ get_elem? before.fds j

-- Every call is answered, in the child.
pub record Answered (a : Answers) : Type 0 where
  pub limits : a.getrlimit ≡ true
  pub child : a.fork ≡ pos 0
  pub session : a.setsid ≡ true
  pub action : a.sigaction ≡ true
  pub root : a.chdir ≡ true
  pub null : a.opens_null ≡ true

redirected :
    (rest : Table)
    → (dup_0 ((dup_0 ((open_null true (none ∷ none ∷ none ∷ rest)).1)).1)).1
      ≡ null_fd ∷ null_fd ∷ null_fd ∷ rest
unfolding open_null dup_0 allocate
redirected rest = refl

module _ (a : Answers) (p : Process) (enough : 3 ≤ limit_of a.rlim_max)
    (room : 3 ≤ length p.fds) where
  limit : ℕ
  limit = limit_of a.rlim_max

  free_at : (j : ℕ) → j < 3 → get_elem? (close_from (limit_of a.rlim_max) 0 p.fds) j ≡ some none
  free_at j lt =
      close_from-inside (limit_of a.rlim_max) 0 j p.fds (omega arith) (omega arith) (omega arith)

  -- The process after the three calls.
  moved : Process
  moved = record p {
    mode_mask = 0;
    leads_session = true;
    has_terminal = false;
    on_hup = ignored;
    cwd = codes "/";
  }

  redirect-fds :
      (rest : Table)
      → close_from (limit_of a.rlim_max) 0 p.fds ≡ none ∷ none ∷ none ∷ rest
      → a.opens_null ≡ true
      → redirect a moved ≡ going_on (record moved { fds = null_fd ∷ null_fd ∷ null_fd ∷ rest })
  unfolding redirect moved open_null dup_0 allocate
  redirect-fds rest e opens = rw (e, opens)

  front : Answered a → (fork_child a p >>= leave_session a) ≡ going_on moved
  unfolding moved fork_child leave_session
  front ok = rw (ok.limits, ok.child, ok.session, ok.action, ok.root)

  -- With at least three descriptors in the table and below the limit, a process of which every call
  -- of daemonize is answered becomes a daemon in the child: a session leader without a terminal, in
  -- the root, that ignores SIGHUP and creates files with any mode, with /dev/null as its first three
  -- descriptors, the others below the limit closed, and those from the limit on as they were.
  pub daemonize-IsDaemon :
      Answered a
      → (p' : Process) × (daemonize a p ≡ going_on p') × IsDaemon (limit_of a.rlim_max) p p'
  unfolding moved daemonize
  daemonize-IsDaemon ok =
      let closed = close_from (limit_of a.rlim_max) 0 p.fds in
      let (rest, e) =
        three_free closed (free_at 0 (omega arith)) (free_at 1 (omega arith))
          (free_at 2 (omega arith)) in
      let after = record moved { fds = null_fd ∷ null_fd ∷ null_fd ∷ rest } in
      let behind : (j : ℕ)
          → 3 ≤ j
          → get_elem? (null_fd ∷ null_fd ∷ null_fd ∷ rest) j ≡ get_elem? closed j =
        λ j le. same_behind rest j le ∙ ap (λ t. get_elem? t j) (sym e) in
      (
        after,
        rw (front ok) (redirect-fds rest e ok.null),
        record {
          any_mode = refl;
          leads = refl;
          no_terminal = refl;
          deaf = refl;
          in_root = refl;
          null = first_three rest;
          closed = λ j le lt there.
              behind j le
              ∙ close_from-inside (limit_of a.rlim_max) 0 j p.fds (omega arith) (omega arith) there;
          kept = λ j le.
              behind j (omega arith)
              ∙ close_from-outside (limit_of a.rlim_max) 0 j p.fds (inr (omega arith));
        },
      )
    where
      same_behind :
          (rest : Table) (j : ℕ)
          → 3 ≤ j
          → get_elem? (null_fd ∷ null_fd ∷ null_fd ∷ rest) j
            ≡ get_elem? (none ∷ none ∷ none ∷ rest) j
      same_behind rest zero le = absurd (omega arith)
      same_behind rest (suc zero) le = absurd (omega arith)
      same_behind rest (suc (suc zero)) le = absurd (omega arith)
      same_behind rest (suc (suc (suc j))) le = refl

      first_three :
          (rest : Table) (j : ℕ)
          → j < 3
          → get_elem? (null_fd ∷ null_fd ∷ null_fd ∷ rest) j ≡ some null_fd
      first_three rest zero lt = refl
      first_three rest (suc zero) lt = refl
      first_three rest (suc (suc zero)) lt = refl
      first_three rest (suc (suc (suc j))) lt = absurd (omega arith)

>>=-eq-going_on :
    (o : Outcome) (f : Process → Outcome) (p' : Process)
    → (o >>= f) ≡ going_on p'
    → (p : Process) × (o ≡ going_on p) × (f p ≡ going_on p')
>>=-eq-going_on (exited n) f p' e = cc
>>=-eq-going_on (going_on p) f p' e = (p, refl, e)

fork_child-going_on :
    (a : Answers) (p p' : Process)
    → fork_child a p ≡ going_on p'
    → (a.getrlimit ≡ true) × (a.fork ≡ pos 0)
unfolding fork_child
fork_child-going_on a p p' e = by_answers a.getrlimit a.fork e
  where
    by_answers :
        (l : Bool) (f : ℤ)
        → fork_child (record a { getrlimit = l; fork = f }) p ≡ going_on p'
        → (l ≡ true) × (f ≡ pos 0)
    by_answers true (pos zero) e = (refl, refl)
    by_answers true (pos (suc pid)) e = cc
    by_answers true (negsuc n) e = cc
    by_answers false f e = cc

leave_session-going_on :
    (a : Answers) (p p' : Process)
    → leave_session a p ≡ going_on p'
    → (a.setsid ≡ true) × (a.sigaction ≡ true) × (a.chdir ≡ true)
unfolding leave_session
leave_session-going_on a p p' e = by_answers a.setsid a.sigaction a.chdir e
  where
    by_answers :
        (s g c : Bool)
        → leave_session (record a { setsid = s; sigaction = g; chdir = c }) p ≡ going_on p'
        → (s ≡ true) × (g ≡ true) × (c ≡ true)
    by_answers true true true e = (refl, refl, refl)
    by_answers true true false e = cc
    by_answers true false c e = cc
    by_answers false g c e = cc

redirect-going_on :
    (a : Answers) (p p' : Process) → redirect a p ≡ going_on p' → a.opens_null ≡ true
unfolding redirect open_null
redirect-going_on a p p' e = by_answer a.opens_null e
  where
    by_answer : (o : Bool) → redirect (record a { opens_null = o }) p ≡ going_on p' → o ≡ true
    by_answer true e = refl
    by_answer false e = cc

-- A process goes on only if every call was answered and it is the child.
pub daemonize-Answered : (a : Answers) (p p' : Process) → daemonize a p ≡ going_on p' → Answered a
unfolding daemonize
daemonize-Answered a p p' e =
    let (p2, e2, opened) = >>=-eq-going_on (fork_child a p >>= leave_session a) (redirect a) p' e in
    let (p1, e1, left) = >>=-eq-going_on (fork_child a p) (leave_session a) p2 e2 in
    let (limits, child) = fork_child-going_on a p p1 e1 in
    let (session, action, root) = leave_session-going_on a p1 p2 left in
    record {
      limits = limits;
      child = child;
      session = session;
      action = action;
      root = root;
      null = redirect-going_on a p2 p' opened;
    }
