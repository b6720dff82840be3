-- ===== src/Turns.antt =====
-- lab_05/src/app2_threads_right.c: two threads that print a file each, the mutex held for the whole
-- loop. A run is any interleaving of their steps. Each thread has opened the file by itself, so it
-- has its own offset; the file is there.
pub mod Paired
pub mod Moves
pub mod Whole
pub mod Ends
mod Tests
use os6_bmstu_iu.Common.{ℕ, ◌+◌, ◌≡◌, Option, none, some, List, [], ◌∷◌, ◌++◌, codes, get_elem?}
use os6_bmstu_iu.Alphabet.{Thread, first, second, put}

-- Where a thread is: not there yet or before its first step, in `main` behind pthread_create, before
-- pthread_mutex_lock, in the loop before read, with the byte that was read, behind the loop, behind
-- pthread_mutex_unlock, or, for `main`, returned.
pub data Stage : Type 0 where
  unborn : Stage
  created : Stage
  ready : Stage
  reading : Stage
  got : ℕ → Stage
  leaving : Stage
  stopped : Stage
  returned : Stage
  failed : Stage

-- What one output call writes: a byte of the file, a line feed of `main`, or its message.
pub data Piece : Type 0 where
  letter : Thread → ℕ → Piece
  feed : Piece
  message : List ℕ → Piece

pub record System : Type 0 where
  pub out : List Piece
  pub mutex : Option Thread
  pub stage : Thread → Stage
  pub offset : Thread → ℕ

abbrev pub start : System
start = record { out = []; mutex = none; stage = λ t. unborn; offset = λ t. 0 }

-- The steps of `main` and `thr_fn` over a file of the given bytes.
pub data Step (file : List ℕ) (s : System) : System → Type 0 where
  create :
      s.stage first ≡ unborn
      → s.stage second ≡ unborn
      → Step file s (record s { stage = put first created (put second ready s.stage) })
  refuse :
      s.stage first ≡ unborn
      → Step file s (record s {
        out = s.out ++ (message (codes "Unable to create a thread") ∷ []);
        stage = put first failed s.stage;
      })
  newline :
      s.stage first ≡ created
      → Step file s (record s { out = s.out ++ (feed ∷ []); stage = put first ready s.stage })
  lock :
      (t : Thread)
      → s.stage t ≡ ready
      → s.mutex ≡ none
      → Step file s (record s { mutex = some t; stage = put t reading s.stage })
  read :
      (t : Thread) (c : ℕ)
      → s.stage t ≡ reading
      → get_elem? file (s.offset t) ≡ some c
      → Step file s
          (record s { stage = put t (got c) s.stage; offset = put t (s.offset t + 1) s.offset })
  at_end :
      (t : Thread)
      → s.stage t ≡ reading
      → get_elem? file (s.offset t) ≡ none
      → Step file s (record s { stage = put t leaving s.stage })
  write :
      (t : Thread) (c : ℕ)
      → s.stage t ≡ got c
      → Step file s (record s { out = s.out ++ (letter t c ∷ []); stage = put t reading s.stage })
  unlock :
      (t : Thread)
      → s.stage t ≡ leaving
      → Step file s (record s { mutex = none; stage = put t stopped s.stage })
  join :
      s.stage first ≡ stopped
      → s.stage second ≡ stopped
      → Step file s (record s { out = s.out ++ (feed ∷ []); stage = put first returned s.stage })

pub data Reach (file : List ℕ) : System → Type 0 where
  begin : Reach file start
  next : {s s' : System} → Reach file s → Step file s s' → Reach file s'
