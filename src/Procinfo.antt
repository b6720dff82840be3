-- ===== src/Procinfo.antt =====
-- lab_04/part1: a program that copies what /proc shows of one process to a file.
pub mod Files
pub mod Stat
pub mod Links
pub mod Maps
pub mod Program
mod Tests
use os6_bmstu_iu.Common.{
  ℕ, zero, suc, ◌+◌, ◌-◌, ◌≡◌, Bool, true, false, not, ◌||◌, Option, none, some, List, [], ◌∷◌,
  ◌++◌, codes, length, take, drop, replicate, map, is_nil, ltb, ◌==◌, if◌then◌else◌, c_string,
  str_eq,
}

-- `BUF_SIZE`, `PATH_LENGTH` and `PID`
abbrev pub buf_size : ℕ
buf_size = 2048

abbrev pub path_length : ℕ
path_length = 512

abbrev pub pid : List ℕ
pid = codes "64361"

-- What code does: it is done, it uses a pointer or an index that is not valid, or the fuel is gone.
pub data Outcome (A : Type 0) : Type 0 where
  done : A → Outcome A
  crashed : Outcome A
  out_of_fuel : Outcome A

infixl 5 ◌>>=◌
abbrev pub ◌>>=◌ : {A B : Type 0} → Outcome A → (A → Outcome B) → Outcome B
done a >>= f = f a
crashed >>= f = crashed
out_of_fuel >>= f = out_of_fuel

-- What needs a pointer that is not NULL, or a string that ends.
abbrev pub need : {A : Type 0} → Option A → Outcome A
need none = crashed
need (some a) = done a

-- What the calls answer: the bytes of a file that `fopen` opens, the names that `opendir` and
-- `readdir` give, the target that `readlink` gives, and whether the output opens once more.
pub record Proc : Type 0 where
  pub read : List ℕ → Option (List ℕ)
  pub list : List ℕ → Option (List (List ℕ))
  pub link : List ℕ → Option (List ℕ)
  pub appends : Bool

-- `snprintf` into `size` bytes cuts the text.
abbrev pub snprintf : ℕ → List ℕ → List ℕ
snprintf size text = take (size - 1) text

-- `getPath` and `getProcPath`
unfoldable pub get_path : List ℕ → List ℕ
get_path name = snprintf path_length (codes "/proc/" ++ (pid ++ (codes "/" ++ name)))

unfoldable pub get_proc_path : List ℕ → List ℕ
get_proc_path name = snprintf path_length (codes "/proc/" ++ name)

abbrev pub rule : List ℕ
rule = codes "---------------------------------"

abbrev pub lf : ℕ
lf = 10

abbrev pub space : ℕ
space = b' '

-- The title of a section; the literal of the source is continued over lines with their spaces.
unfoldable pub title : List ℕ → List ℕ
title path =
    lf
    ∷ lf
    ∷ lf
    ∷ (rule
        ++ (b' '
            ∷ (replicate 24 (b' ')
                ++ (lf
                    ∷ (codes "   "
                        ++ (path
                            ++ (b' '
                                ∷ (replicate 24 (b' ') ++ (lf ∷ (rule ++ (lf ∷ lf ∷ [])))))))))))

-- `preparePrint`: its tests compare the addresses of its caller's pointers with NULL, so they never
-- hold. The file to read may be NULL behind it; a NULL output is used at once.
unfoldable pub prepare_print : Proc → List ℕ → Outcome (Option (List ℕ) × List ℕ)
prepare_print k path = if k.appends then done (k.read path, title path) else crashed

-- `if (buf[i] == 0) buf[i] = 10;`
abbrev pub line_end : ℕ → ℕ
line_end c = if c == 0 then lf else c

-- The loop of `infoFromFile` over what is left of the file.
unfoldable pub copy : (fuel : ℕ) → (left buf : List ℕ) → Outcome (List ℕ)
copy zero left buf = out_of_fuel
copy (suc n) left buf =
    let chunk = take (length buf) left in
    let buf' = map line_end chunk ++ drop (length chunk) buf in
    let rest = copy n (drop (length buf) left) buf' in
    if is_nil chunk
    then done []
    else do text ← need (c_string buf'); more ← rest; done (text ++ more)

-- `infoFromFile`
unfoldable pub info_from_file : Proc → List ℕ → Outcome (List ℕ)
unfolding copy
info_from_file k path = do
  (f_read, start) ← prepare_print k path
  file ← need f_read
  text ← copy (suc (suc (length file))) file (replicate buf_size 0)
  done (start ++ text)

-- `infoProcessFromFile` and `infoGeneralFromFile`
abbrev pub info_process_from_file : Proc → List ℕ → Outcome (List ℕ)
info_process_from_file k name = info_from_file k (get_path name)

abbrev pub info_general_from_file : Proc → List ℕ → Outcome (List ℕ)
info_general_from_file k name = info_from_file k (get_proc_path name)
