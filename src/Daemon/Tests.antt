-- ===== src/Daemon/Tests.antt =====
-- lab_01/main.c: a daemon that is started, a second one that is kept out, and a third one that is not.
use os6_bmstu_iu.Common.{
  ℕ, ◌≡◌, refl, true, false, none, some, List, [], ◌∷◌, ◌++◌, pos, codes, arith, print,
}
use os6_bmstu_iu.Daemon.Process.{
  inherited, dev_null, Process, default, Answers, going_on, daemonize, close_from, open_null, dup_0,
  allocate, fork_child, leave_session, redirect,
}
use os6_bmstu_iu.Daemon.Process.Detached.{IsDaemon, Answered, daemonize-IsDaemon}
use os6_bmstu_iu.Daemon.Service.{
  Start, Service, main, serve, start_thread, already_running, thr_fn, got, term, sighup, sigterm,
  ended,
}
use os6_bmstu_iu.Daemon.Service.Signals.{IsServing, main-IsServing, thr_fn-term, each_got, answers}
use os6_bmstu_iu.Daemon.Lock.{
  World, opening, locking, refusing, truncating, writing, removing, exiting, by_open, by_lock,
  by_refuse, by_truncate, by_write, by_remove, by_exit, Reach, begin, then_step,
}
use os6_bmstu_iu.Daemon.Lock.Held.{serving-Reach}
use os6_bmstu_iu.Daemon.Lock.One.{NoRemove, serving-one}

abbrev kernel : Answers
kernel = record {
  getrlimit = true;
  rlim_max = some 4;
  fork = pos 0;
  setsid = true;
  sigaction = true;
  chdir = true;
  opens_null = true;
}

abbrev shell_child : Process
shell_child = record {
  mode_mask = 18;
  leads_session = false;
  has_terminal = true;
  on_hup = default;
  cwd = codes "/root";
  fds =
      some (inherited 1)
      ∷ some (inherited 1)
      ∷ some (inherited 1)
      ∷ some (inherited 2)
      ∷ some (inherited 3)
      ∷ [];
  all_blocked = false;
}

kernel-Answered : Answered kernel
kernel-Answered = record {
  limits = refl;
  child = refl;
  session = refl;
  action = refl;
  root = refl;
  null = refl;
}

daemonize-IsDaemon_example :
    (p' : Process) × (daemonize kernel shell_child ≡ going_on p') × IsDaemon 4 shell_child p'
daemonize-IsDaemon_example =
    daemonize-IsDaemon kernel shell_child (omega arith) (omega arith) kernel-Answered

abbrev begins : Start
begins = record {
  lock = record { fd = pos 3; granted = true; errno = 0 };
  pid = 42;
  sigaction = true;
  sigmask = true;
  create = true;
}

abbrev daemon : Process
daemon = record {
  mode_mask = 0;
  leads_session = true;
  has_terminal = false;
  on_hup = default;
  cwd = codes "/";
  fds = some dev_null ∷ some dev_null ∷ some dev_null ∷ none ∷ some (inherited 3) ∷ [];
  all_blocked = true;
}

-- The descriptor behind the limit stays open.
daemon_runs : main kernel begins shell_child ≡ Service.serving daemon (b'4' ∷ b'2' ∷ 0 ∷ [])
unfolding main daemonize close_from open_null dup_0 allocate fork_child leave_session redirect serve
    start_thread already_running print
daemon_runs = refl

main-IsServing_example : IsServing kernel begins daemon (b'4' ∷ b'2' ∷ 0 ∷ [])
main-IsServing_example =
    main-IsServing kernel begins shell_child daemon (b'4' ∷ b'2' ∷ 0 ∷ []) daemon_runs

thr_fn-term_example :
    thr_fn [] (each_got (sighup ∷ 10 ∷ []) ++ (got sigterm ∷ got sighup ∷ []))
    ≡ ended 0 true (([] ++ answers (sighup ∷ 10 ∷ [])) ++ (term ∷ []))
thr_fn-term_example = thr_fn-term (sighup ∷ 10 ∷ []) [] (got sighup ∷ []) (refl, (refl, tt))

abbrev no_bytes : ℕ → List ℕ
no_bytes i = []

-- The process 1 serves, and the process 2 is kept out.
abbrev kept_out :
    (w : World) × Reach none no_bytes
      (refusing ∷ writing ∷ truncating ∷ locking ∷ opening ∷ opening ∷ [])
      w
kept_out = (
  _,
  then_step 2 refusing
      (then_step 1 writing
        (then_step 1 truncating
          (then_step 1 locking
            (then_step 2 opening (then_step 1 opening begin (by_open refl)) (by_open refl))
            (by_lock 0 refl refl))
          (by_truncate 0 refl))
        (by_write 0 refl))
      (by_refuse 0 1 refl refl),
)

serving-Reach_example : (kept_out.0.holder 0 ≡ some 1) × (kept_out.0.bytes 0 ≡ print 1 ++ (0 ∷ []))
serving-Reach_example = serving-Reach none no_bytes _ (kept_out.0) 1 0 (kept_out.1) refl

kept_out-NoRemove : NoRemove (refusing ∷ writing ∷ truncating ∷ locking ∷ opening ∷ opening ∷ [])
unfolding NoRemove
kept_out-NoRemove = tt

serving-one_example : ◌≡◌ {A = ℕ} 1 1
serving-one_example =
    serving-one none no_bytes _ (kept_out.0) 1 1 0 0 kept_out-NoRemove (kept_out.1) refl refl

-- The process 2 opens the file, and the process 1, which serves, removes it and ends.
abbrev left_behind :
    (w : World) × Reach none no_bytes
      (exiting ∷ removing ∷ opening ∷ writing ∷ truncating ∷ locking ∷ opening ∷ [])
      w
left_behind = (
  _,
  then_step 1 exiting
      (then_step 1 removing
        (then_step 2 opening
          (then_step 1 writing
            (then_step 1 truncating
              (then_step 1 locking (then_step 1 opening begin (by_open refl)) (by_lock 0 refl refl))
              (by_truncate 0 refl))
            (by_write 0 refl))
          (by_open refl))
        (by_remove 0 refl))
      (by_exit 0 refl),
)
