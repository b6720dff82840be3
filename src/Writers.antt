-- ===== src/Writers.antt =====
-- lab_05/src/app3.c: two streams that write to one file, each from its own offset, when they are closed.
pub mod Last
pub mod Appended
mod Tests
use os6_bmstu_iu.Common.{
  ℕ, zero, suc, ◌+◌, ◌%◌, ◌≡◌, Bool, true, false, List, [], ◌∷◌, ◌++◌, length, take, drop, ◌==◌,
  if◌then◌else◌,
}

-- A stream: the offset of its descriptor, and what its buffer holds. The buffer of stdio is larger
-- than what is written, so it is flushed by `fclose` only.
pub record Stream : Type 0 where
  pub offset : ℕ
  pub buf : List ℕ

-- `fopen(FILE_OUT, "w")` empties the file.
abbrev pub fresh_stream : Stream
fresh_stream = record { offset = 0; buf = [] }

-- The file, the two streams, and what `getInfo` has shown: the size of the file and a position.
pub record Written : Type 0 where
  pub bytes : List ℕ
  pub f1 : Stream
  pub f2 : Stream
  pub shown : List (ℕ × ℕ)

-- `getInfo`
abbrev pub get_info : ℕ → Written → Written
get_info pos w = record w { shown = w.shown ++ ((length w.bytes, pos) ∷ []) }

-- `ftell`
abbrev pub ftell : Stream → ℕ
ftell f = f.offset + length f.buf

-- `fprintf(f, "%c", c)`
abbrev pub fprintf : ℕ → Stream → Stream
fprintf c f = record f { buf = f.buf ++ (c ∷ []) }

-- `fclose` writes the buffer over what stands in the file from the offset on.
unfoldable pub fclose : Stream → List ℕ → List ℕ
fclose f bytes = take f.offset bytes ++ (f.buf ++ drop (f.offset + length f.buf) bytes)

-- The two `fopen` with their `ftell`.
unfoldable pub open_both : Written
open_both =
    let w1 : Written = record { bytes = []; f1 = fresh_stream; f2 = fresh_stream; shown = [] } in
    let w2 = get_info (ftell w1.f1) w1 in get_info (ftell w2.f2) (record w2 { bytes = [] })

-- The loop over the letters.
unfoldable pub put_letters : List ℕ → Written → Written
put_letters [] w = w
put_letters (c ∷ cs) w =
    let to_f1 = put_letters cs (record w { f1 = fprintf c w.f1 }) in
    let to_f2 = put_letters cs (record w { f2 = fprintf c w.f2 }) in
    if c % 2 == 0 then to_f2 else to_f1

-- The two `fclose`.
unfoldable pub close_both : Written → Written
close_both w =
    let pos1 = ftell w.f1 in
    let w1 = get_info pos1 (record w { bytes = fclose w.f1 w.bytes }) in
    let pos2 = ftell w1.f2 in get_info pos2 (record w1 { bytes = fclose w1.f2 w1.bytes })

-- `for (char c = 'A'; c <= 'Z'; c++)`
abbrev pub from : (k c : ℕ) → List ℕ
from zero c = []
from (suc k) c = c ∷ from k (c + 1)

abbrev pub letters : List ℕ
letters = from 26 (b'A')

-- `main`, on any letters.
unfoldable pub main : List ℕ → Written
main cs = close_both (put_letters cs open_both)
