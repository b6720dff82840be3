-- ===== src/Fortune/Cookie.antt =====
-- lab_04/part2/fortune.c: the file operations of the module. A result of `none` is an access
-- outside of a buffer.
pub mod Shape
pub mod Write
pub mod Refuse
pub mod Session
pub mod Read
use os6_bmstu_iu.Common.{
  ℕ, zero, suc, ◌+◌, ◌-◌, ◌%◌, ◌^◌, ◌||◌, Bool, Option, none, some, List, [], ◌∷◌, ◌++◌, ℤ, pos,
  negsuc, ltb, leb, ◌==◌, if◌then◌else◌, length, take, drop, replicate, ◌>>=◌,
}
use os6_bmstu_iu.Fortune.Buffer.{page_size, store, put, c_string, copied_block}

-- `cookieBuffer`, `tmpBuffer`, `readInd` and `writeInd`. The indices are `int`; they stay below
-- twice the page size as long as no access faults.
pub record Fortune : Type 0 where
  pub cookie_buffer : List ℕ
  pub tmp_buffer : List ℕ
  pub read_ind : ℕ
  pub write_ind : ℕ

-- The state that `initFortune` sets up.
abbrev pub fresh : Fortune
fresh = record {
  cookie_buffer = replicate page_size 0;
  tmp_buffer = replicate page_size 0;
  read_ind = 0;
  write_ind = 0;
}

-- `-ENOSPC` and `-EFAULT`
abbrev pub enospc : ℤ
enospc = negsuc 27

abbrev pub efault : ℤ
efault = negsuc 13

-- `COOKIE_MAX_BUF_SIZE - writeInd + 1`, in `unsigned long`.
abbrev pub space : Fortune → ℕ
space s = (page_size + 2 ^ 64 - s.write_ind + 1) % 2 ^ 64

-- `buffer[i - 1] = v`
abbrev pub put_before : ℕ → ℕ → List ℕ → Option (List ℕ)
put_before i v buf = if i == 0 then none else put (i - 1) v buf

-- `writeFortune`: `from` are the bytes of the user, of which the last `uncopied` cannot be read.
unfoldable pub write_fortune : (uncopied : ℕ) → List ℕ → Fortune → Option (ℤ × Fortune)
write_fortune uncopied from s =
    let len = length from in
    if ltb (space s) len then some (enospc, s) else do
      buf ← store s.write_ind (copied_block uncopied from) s.cookie_buffer
      if ltb 0 uncopied then some (efault, record s { cookie_buffer = buf }) else do
        let write_ind = s.write_ind + len
        buf ← put_before write_ind b'\n' buf
        buf ← put write_ind 0 buf
        some (pos len, record s { cookie_buffer = buf; write_ind = write_ind + 1 })

-- What a read gives: its value, the bytes that reach the user, the new `*fPos` and the state.
pub record Reply : Type 0 where
  pub value : ℤ
  pub sent : List ℕ
  pub f_pos : ℕ
  pub state : Fortune

abbrev pub reply : ℤ → List ℕ → ℕ → Fortune → Reply
reply v bs p s = record { value = v; sent = bs; f_pos = p; state = s }

-- `if (readInd >= writeInd) readInd = 0;`
abbrev pub start_of : Fortune → ℕ
start_of s = if leb s.write_ind s.read_ind then 0 else s.read_ind

-- `snprintf(tmpBuffer, COOKIE_MAX_BUF_SIZE, "%s\n", text)`: at most a page, with its final zero.
unfoldable pub print_line : List ℕ → List ℕ → Option (List ℕ)
print_line text tmp = store 0 (take (page_size - 1) (text ++ (b'\n' ∷ [])) ++ (0 ∷ [])) tmp

-- `readFortune`: `refused` says that `copy_to_user` fails.
unfoldable pub read_fortune : (refused : Bool) → (f_pos : ℕ) → Fortune → Option Reply
unfolding print_line
read_fortune refused f_pos s =
    if ltb 0 f_pos || s.write_ind == 0 then some (reply (pos 0) [] f_pos s) else do
      text ← c_string (drop (start_of s) s.cookie_buffer)
      tmp ← print_line text s.tmp_buffer
      let read_len = length text + 1
      let s' = record s { tmp_buffer = tmp; read_ind = start_of s }
      if ltb page_size read_len
          then none
          else if refused
          then some (reply efault [] f_pos s')
          else some (
              reply (pos read_len) (take read_len tmp) (f_pos + read_len)
                (record s' { read_ind = start_of s + read_len }))
