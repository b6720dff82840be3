-- ===== src/Select/Client.antt =====
-- lab_08/part2/client.c: the client, which sends what is typed and prints the answers.
pub mod Squares
use os6_bmstu_iu.Common.{
  ℕ, zero, suc, ◌+◌, ◌-◌, ◌*◌, ◌/◌, ◌%◌, ◌^◌, ◌≤◌, ◌<◌, ◌≡◌, refl, ap, sym, ◌∙◌, Bool, true, false,
  not, ◌&&◌, Bool-cases, inl, inr, Option, none, some, List, [], ◌∷◌, ◌++◌, append_assoc, ◌>>=◌,
  ltb, leb, lt→ltb, ◌==◌, ==_ne, if◌then◌else◌, length, arith, c_string, print, print_in, spell,
  spell-append, spell-print,
}

-- `MAX_LEN_BUF`
abbrev pub max_len_buf : ℕ
max_len_buf = 64

-- How the client ends or goes on: it has written behind `buf` or read behind `bufServer`, it has
-- returned -1, or it has sent some texts, each with its zero, and printed the answers.
pub data Ending : Type 0 where
  crashed : Ending
  failed : Ending
  asks : (sent : List (List ℕ)) → (printed : List (List ℕ)) → Ending

-- One round of the loop: the word that `scanf` reads, whether `send` works, and what is in
-- `bufServer` behind `recv`, whose value is not tested.
pub record Turn : Type 0 where
  pub word : List ℕ
  pub sends : Bool
  pub buf_server : List ℕ

-- `while (TRUE)`, over what happens, with what has been sent and printed.
unfoldable pub loop : List Turn → (sent printed : List (List ℕ)) → Ending
loop [] sent printed = asks sent printed
loop (t ∷ ts) sent printed =
    if not (ltb (length t.word) max_len_buf)
    then crashed
    else if not t.sends
    then failed
    else elim (c_string t.buf_server) [
      | none ↦ crashed
      | some reply ↦ loop ts ((t.word ++ (0 ∷ [])) ∷ sent) (reply ∷ printed)
    ]

-- `main`: the test behind `socket` compares the function, and never holds; `connect` fails on -1.
unfoldable pub main : (socket connect : Bool) → List Turn → Ending
main socket connect ts = if not (socket && connect) then failed else loop ts [] []
