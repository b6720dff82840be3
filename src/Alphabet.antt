-- ===== src/Alphabet.antt =====
-- lab_05/src/app2_threads.c: two threads that print a file together, a byte at a time, under a
-- mutex. Each thread moves by itself, so a run is any interleaving of their steps.
pub mod Threads
pub mod Fine
pub mod Printed
mod Tests
use os6_bmstu_iu.Common.{
  ℕ, ◌+◌, ◌≡◌, Bool, true, false, Option, none, some, List, [], ◌∷◌, ◌++◌, get_elem?, if◌then◌else◌,
}

-- The thread of `main`, with number 1, and that of `thr_fn`, with number 2.
pub data Thread : Type 0 where
  first : Thread
  second : Thread

-- Where a thread is: before `outputFile`, in it after pthread_mutex_lock, after lseek, after read
-- with the byte that was read, after the output with the value to be returned, or behind its loop.
pub data Stage : Type 0 where
  outside : Stage
  locked : Stage
  sought : Stage
  got : Option ℕ → Stage
  leaving : Bool → Stage
  stopped : Stage

-- A value for one thread changes.
abbrev pub put {ℓ} : {A : Type ℓ} → Thread → A → (Thread → A) → Thread → A
put first v g first = v
put first v g second = g second
put second v g first = g first
put second v g second = v

-- `filePos`, what has been written by which thread, the owner of `mutex`, and for each thread where
-- it is and the offset of its own descriptor.
pub record System : Type 0 where
  pub file_pos : ℕ
  pub out : List (Thread × ℕ)
  pub mutex : Option Thread
  pub stage : Thread → Stage
  pub offset : Thread → ℕ

abbrev pub start : System
start = record { file_pos = 0; out = []; mutex = none; stage = λ t. outside; offset = λ t. 0 }

-- The steps of `outputFile` and of the loops around it, in a file of the given bytes.
pub data Step (file : List ℕ) (s : System) : System → Type 0 where
  lock :
      (t : Thread)
      → s.stage t ≡ outside
      → s.mutex ≡ none
      → Step file s (record s { mutex = some t; stage = put t locked s.stage })
  lseek :
      (t : Thread)
      → s.stage t ≡ locked
      → Step file s (record s { stage = put t sought s.stage; offset = put t s.file_pos s.offset })
  read :
      (t : Thread)
      → s.stage t ≡ sought
      → Step file s (record s {
        stage = put t (got (get_elem? file (s.offset t))) s.stage;
        offset = put t (s.offset t + 1) s.offset;
      })
  write :
      (t : Thread) (c : ℕ)
      → s.stage t ≡ got (some c)
      → Step file s
          (record s { out = s.out ++ ((t, c) ∷ []); stage = put t (leaving true) s.stage })
  at_end :
      (t : Thread)
      → s.stage t ≡ got none
      → Step file s (record s { stage = put t (leaving false) s.stage })
  unlock :
      (t : Thread) (rc : Bool)
      → s.stage t ≡ leaving rc
      → Step file s (record s {
        file_pos = s.file_pos + 1;
        mutex = none;
        stage = put t (if rc then outside else stopped) s.stage;
      })

pub data Reach (file : List ℕ) : System → Type 0 where
  begin : Reach file start
  next : {s s' : System} → Reach file s → Step file s s' → Reach file s'
