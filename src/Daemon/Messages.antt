-- ===== src/Daemon/Messages.antt =====
-- lab_01/lib/apue.c: what err_quit and err_exit print before they end the process. A text that has
-- been formatted is its bytes without the final zero, and has no zero in it; so `strlen` is the
-- length. What `strerror` gives is a parameter. A result of `none` is an access outside of `buf`.
mod Tests
use os6_bmstu_iu.Common.{
  ℕ, zero, suc, ◌+◌, ◌-◌, ◌≤◌, ◌<◌, ◌≡◌, refl, ap, sym, ◌∙◌, Bool, true, false, Option, none, some,
  List, [], ◌∷◌, ◌++◌, append-nil, append_assoc, arith, codes, length, length-append, length-take,
  take, take-le, ltb, lt→ltb, if◌then◌else◌, ◌>>=◌,
}

-- `MAXLINE`
abbrev pub max_line : ℕ
max_line = 4096

-- What `snprintf` leaves of a text in `size` bytes, before its zero.
abbrev pub snprintf : (size : ℕ) → List ℕ → List ℕ
snprintf size text = take (size - 1) text

-- `strcat(buf, text)` for a `buf` of `max_line` bytes.
unfoldable pub strcat : List ℕ → List ℕ → Option (List ℕ)
strcat buf text = if ltb (length buf + length text) max_line then some (buf ++ text) else none

-- `err_doit`: what reaches stderr.
unfoldable pub err_doit : (errnoflag : Bool) → (strerror : List ℕ) → List ℕ → Option (List ℕ)
unfolding strcat
err_doit errnoflag strerror text =
    let buf = snprintf (max_line - 1) text in
    let buf' =
      if errnoflag
      then buf ++ snprintf (max_line - length buf - 1) (codes ": " ++ strerror)
      else buf in
    strcat buf' (b'\n' ∷ [])

-- `err_quit` and `err_exit`: the status of the process, and what it has printed.
unfoldable pub err_quit : List ℕ → Option (ℕ × List ℕ)
err_quit text = do line ← err_doit false [] text; some (1, line)

unfoldable pub err_exit : (strerror : ℕ → List ℕ) → ℕ → List ℕ → Option (ℕ × List ℕ)
err_exit strerror error text = do line ← err_doit true (strerror error) text; some (1, line)

take-append_split :
    (n : ℕ) (xs ys : List ℕ) → take n (xs ++ ys) ≡ take n xs ++ take (n - length xs) ys
take-append_split zero xs ys = let none_left : 0 - length xs ≡ 0 = omega arith in rw none_left
take-append_split (suc n) [] ys = let whole : suc n - 0 ≡ suc n = omega arith in rw whole
take-append_split (suc n) (x ∷ xs) ys =
    let shift : suc n - suc (length xs) ≡ n - length xs = omega arith in
    rw shift (ap (◌∷◌ x) (take-append_split n xs ys))

-- The line that is printed for a whole message: as much of it as fits, and a line end.
abbrev pub line_of : List ℕ → List ℕ
line_of whole = take (max_line - 2) whole ++ (b'\n' ∷ [])

length-line_of : (whole : List ℕ) → length (line_of whole) < max_line
length-line_of whole = omega (
  arith,
  length-append (take (max_line - 2) whole) (b'\n' ∷ []),
  length-take (max_line - 2) whole,
)

strcat-newline :
    (whole : List ℕ) → strcat (take (max_line - 2) whole) (b'\n' ∷ []) ≡ some (line_of whole)
unfolding strcat
strcat-newline whole =
    let room =
      lt→ltb (length (take (max_line - 2) whole) + 1) max_line
        (omega (arith, length-take (max_line - 2) whole)) in
    rw room

-- What the two calls of snprintf leave is the front of the whole message.
two_parts :
    (text error : List ℕ)
    → take (max_line - 2) text ++ take (max_line - length (take (max_line - 2) text) - 1 - 1) error
      ≡ take (max_line - 2) (text ++ error)
two_parts text error =
    let left : max_line - length (take (max_line - 2) text) - 1 - 1 ≡ max_line - 2 - length text =
      omega (arith, length-take (max_line - 2) text) in
    rw left (sym (take-append_split (max_line - 2) text error))

err_doit-line :
    (errnoflag : Bool) (error text : List ℕ)
    → err_doit errnoflag error text
      ≡ some (line_of (if errnoflag then text ++ (codes ": " ++ error) else text))
unfolding err_doit
err_doit-line true error text =
    rw (two_parts text (codes ": " ++ error)) (strcat-newline (text ++ (codes ": " ++ error)))
err_doit-line false error text = strcat-newline text

-- However long the message and the description of the error are, neither call writes outside of the
-- buffer: each ends the process with 1 and prints as much of the whole message as fits, with its line
-- end, which is fewer bytes than the buffer has. The whole message of err_exit has the description
-- behind a colon.
pub err_exit-line :
    (strerror : ℕ → List ℕ) (error : ℕ) (text : List ℕ)
    → (err_quit text ≡ some (1, line_of text))
      × (err_exit strerror error text ≡ some (1, line_of (text ++ (codes ": " ++ strerror error))))
      × (length (line_of text) < max_line)
      × (length (line_of (text ++ (codes ": " ++ strerror error))) < max_line)
unfolding err_quit err_exit
err_exit-line strerror error text = (
  rw (err_doit-line false [] text),
  rw (err_doit-line true (strerror error) text),
  length-line_of text,
  length-line_of (text ++ (codes ": " ++ strerror error)),
)
