-- ===== src/Streams/Threads.antt =====
-- lab_05/src/app1_threads.c: two buffered streams over one open file, a thread for each. A run is any
-- interleaving of what the calls of fscanf do. The thread is there before the first step.
pub mod Kept
pub mod Stages
pub mod Ends
mod Tests
use os6_bmstu_iu.Common.{
  ℕ, ◌≡◌, Bool, true, false, ◌&&◌, ◌||◌, List, [], ◌∷◌, ◌++◌, ◌==◌, leb, take, drop,
}
use os6_bmstu_iu.Alphabet.{Thread, first, second, put}

-- `BUF_SIZE`
abbrev pub buf_size : ℕ
buf_size = 18

-- What a directive of white space in a format skips.
abbrev pub is_space : ℕ → Bool
is_space c = (c == b' ') || (leb 9 c && leb c 13)

-- Where a thread is: in fscanf at `%c`, in fscanf at the white space with the byte that was read,
-- before fprintf, behind its loop, or, for `main`, returned.
pub data Stage : Type 0 where
  asking : Stage
  skipping : ℕ → Stage
  printing : ℕ → Stage
  stopped : Stage
  returned : Stage

-- A stage at which an empty buffer is filled.
abbrev pub wants : Stage → Bool
wants asking = true
wants (skipping c) = true
wants _ = false

-- What no stream has read yet of the open file, what has been printed, and for each thread where it
-- is and what its stream holds in its buffer.
pub record System : Type 0 where
  pub unread : List ℕ
  pub out : List ℕ
  pub at : Thread → Stage × List ℕ

abbrev pub start : List ℕ → System
start file = record { unread = file; out = []; at = λ t. (asking, []) }

-- The steps of `main` and `launchThread`. A buffer is filled at the offset that both streams share.
pub data Step (s : System) : System → Type 0 where
  fill :
      (t : Thread) (v : Stage) (c : ℕ) (rest : List ℕ)
      → s.at t ≡ (v, [])
      → wants v ≡ true
      → s.unread ≡ c ∷ rest
      → Step s (record s {
        unread = drop buf_size s.unread;
        at = put t (v, take buf_size s.unread) s.at;
      })
  read :
      (t : Thread) (c : ℕ) (buf : List ℕ)
      → s.at t ≡ (asking, c ∷ buf)
      → Step s (record s { at = put t (skipping c, buf) s.at })
  at_end :
      (t : Thread)
      → s.at t ≡ (asking, [])
      → s.unread ≡ []
      → Step s (record s { at = put t (stopped, []) s.at })
  skip :
      (t : Thread) (d c : ℕ) (buf : List ℕ)
      → s.at t ≡ (skipping d, c ∷ buf)
      → is_space c ≡ true
      → Step s (record s { at = put t (skipping d, buf) s.at })
  met :
      (t : Thread) (d c : ℕ) (buf : List ℕ)
      → s.at t ≡ (skipping d, c ∷ buf)
      → is_space c ≡ false
      → Step s (record s { at = put t (printing d, c ∷ buf) s.at })
  no_more :
      (t : Thread) (d : ℕ)
      → s.at t ≡ (skipping d, [])
      → s.unread ≡ []
      → Step s (record s { at = put t (printing d, []) s.at })
  fprintf :
      (t : Thread) (d : ℕ) (buf : List ℕ)
      → s.at t ≡ (printing d, buf)
      → Step s (record s { out = s.out ++ (d ∷ []); at = put t (asking, buf) s.at })
  join :
      (buf buf2 : List ℕ)
      → s.at first ≡ (stopped, buf)
      → s.at second ≡ (stopped, buf2)
      → Step s
          (record s { out = s.out ++ (b'\n' ∷ b'\n' ∷ []); at = put first (returned, buf) s.at })

pub data Reach (file : List ℕ) : System → Type 0 where
  begin : Reach file (start file)
  next : {s s' : System} → Reach file s → Step s s' → Reach file s'
