-- ===== src/Keyboard/Keys.antt =====
-- lab_09/part1/main.c: the names of the keys and the buffer of pressed keys.
pub mod Kept
use os6_bmstu_iu.Common.{
  ℕ, zero, suc, ◌+◌, ◌≤◌, ◌<◌, ◌≡◌, refl, Bool, true, false, Option, none, some, List, [], ◌∷◌,
  ◌++◌, codes, ltb, leb, ◌==◌, if◌then◌else◌, length, get_elem?, set, replicate, ◌>>=◌,
}

abbrev pub Key : Type 0
Key = List ℕ

-- `ascii`
abbrev pub ascii : List Key
ascii =
    codes " "
    ∷ codes "Esc"
    ∷ codes "1"
    ∷ codes "2"
    ∷ codes "3"
    ∷ codes "4"
    ∷ codes "5"
    ∷ codes "6"
    ∷ codes "7"
    ∷ codes "8"
    ∷ codes "9"
    ∷ codes "0"
    ∷ codes "-"
    ∷ codes "+"
    ∷ codes "Backspace"
    ∷ codes "Tab"
    ∷ codes "Q"
    ∷ codes "W"
    ∷ codes "E"
    ∷ codes "R"
    ∷ codes "T"
    ∷ codes "Y"
    ∷ codes "U"
    ∷ codes "I"
    ∷ codes "O"
    ∷ codes "P"
    ∷ codes "["
    ∷ codes "]"
    ∷ codes "Enter"
    ∷ codes "Ctrl"
    ∷ codes "A"
    ∷ codes "S"
    ∷ codes "D"
    ∷ codes "F"
    ∷ codes "G"
    ∷ codes "H"
    ∷ codes "J"
    ∷ codes "K"
    ∷ codes "L"
    ∷ codes ";"
    ∷ codes "\""
    ∷ codes "'"
    ∷ codes "Shift (left)"
    ∷ codes "|"
    ∷ codes "Z"
    ∷ codes "X"
    ∷ codes "C"
    ∷ codes "V"
    ∷ codes "B"
    ∷ codes "N"
    ∷ codes "M"
    ∷ codes "<"
    ∷ codes ">"
    ∷ codes "?"
    ∷ codes "Shift (right)"
    ∷ codes "*"
    ∷ codes "Alt"
    ∷ codes "Space"
    ∷ codes "CapsLock"
    ∷ codes "F1"
    ∷ codes "F2"
    ∷ codes "F3"
    ∷ codes "F4"
    ∷ codes "F5"
    ∷ codes "F6"
    ∷ codes "F7"
    ∷ codes "F8"
    ∷ codes "F9"
    ∷ codes "F10"
    ∷ codes "NumLock"
    ∷ codes "ScrollLock"
    ∷ codes "Home"
    ∷ codes "Up"
    ∷ codes "Page-Up"
    ∷ codes "-"
    ∷ codes "Left"
    ∷ codes " "
    ∷ codes "Right"
    ∷ codes "+"
    ∷ codes "End"
    ∷ codes "Down"
    ∷ codes "Page-Down"
    ∷ codes "Insert"
    ∷ codes "Delete"
    ∷ []

-- `POS_MAX`
abbrev pub pos_max : ℕ
pos_max = 1000

-- `simbol` and `pos_simbol`; `none` is a NULL pointer.
pub record Keys : Type 0 where
  pub simbol : List (Option Key)
  pub pos_simbol : ℕ

abbrev pub no_keys : Keys
no_keys = record { simbol = replicate pos_max none; pos_simbol = 0 }

-- `my_tasklet_function`, where `code` is what the port of the keyboard gives: `none` is an access
-- outside of an array.
unfoldable pub my_tasklet_function : (code : ℕ) → Keys → Option Keys
my_tasklet_function code s =
    if ltb code 84
    then (do
      key ← get_elem? ascii code
      some (
          if ltb s.pos_simbol pos_max
          then record {
            simbol = set s.simbol s.pos_simbol (some key);
            pos_simbol = s.pos_simbol + 1;
          }
          else record s { pos_simbol = 0 }))
    else some s

-- `n` rounds of the loop of `f`, from index `i` on: the pointers that are printed.
unfoldable pub print_from : ℕ → ℕ → List (Option Key) → Option (List (Option Key))
print_from zero i simbol = some []
print_from (suc n) i simbol = do
  key ← get_elem? simbol i
  rest ← print_from n (i + 1) simbol
  some (key ∷ rest)

-- `f`: the loop runs while `i <= pos_simbol`.
unfoldable pub f : Keys → Option (List (Option Key))
unfolding print_from
f s = print_from (s.pos_simbol + 1) 0 s.simbol
