-- ===== src/Streams.antt =====
-- lab_05/src/app1.c: two buffered streams over one open file, read in turn.
pub mod Shared
pub mod Threads
mod Tests
use os6_bmstu_iu.Common.{
  ℕ, zero, suc, ◌≡◌, Bool, true, false, ◌||◌, Option, none, some, List, [], ◌∷◌, ◌++◌, take, drop,
  if◌then◌else◌,
}

-- `BUFF_SIZE`
abbrev pub buff_size : ℕ
buff_size = 18

-- What no stream has read yet of the open file, what each stream holds in its buffer, and what has
-- been printed.
pub record Streams : Type 0 where
  pub unread : List ℕ
  pub buf1 : List ℕ
  pub buf2 : List ℕ
  pub out : List ℕ

-- `fscanf(fs, "%c", &c)`: the byte, if there is one, the buffer and what is left of the file. An
-- empty buffer is filled by a read at the offset that both streams share.
abbrev pub refill : List ℕ → List ℕ → Option ℕ × List ℕ × List ℕ
refill [] unread = (none, [], unread)
refill (c ∷ buf) unread = (some c, buf, unread)

abbrev pub scan : List ℕ → List ℕ → Option ℕ × List ℕ × List ℕ
scan [] unread = refill (take buff_size unread) (drop buff_size unread)
scan (c ∷ buf) unread = (some c, buf, unread)

abbrev pub printed : Option ℕ → List ℕ
printed none = []
printed (some c) = c ∷ []

abbrev pub is_some : Option ℕ → Bool
is_some none = false
is_some (some c) = true

-- One round of the loop: whether one of the calls has read a byte, and the state.
unfoldable pub round : Streams → Bool × Streams
round s =
    let (rc1, b1, left) = scan s.buf1 s.unread in
    let (rc2, b2, left2) = scan s.buf2 left in
    (
      is_some rc1 || is_some rc2,
      record { unread = left2; buf1 = b1; buf2 = b2; out = (s.out ++ printed rc1) ++ printed rc2 },
    )

-- The loop; `none` when the rounds do not suffice.
unfoldable pub loop : ℕ → Streams → Option Streams
loop zero s = none
loop (suc k) s = let r = round s in let rest = loop k (r.1) in if r.0 then rest else some (r.1)

-- `main`, on a file of the given bytes.
unfoldable pub main : ℕ → List ℕ → Option Streams
main rounds file = loop rounds (record { unread = file; buf1 = []; buf2 = []; out = [] })
