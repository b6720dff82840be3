-- ===== src/Procinfo/Maps.antt =====
-- lab_04/part1/lib/output_funcs.c: fprintPagemap, which reads the ranges of /proc/<pid>/maps and
-- writes what the page map says of each page. A read behind the buffer is a crash.
pub mod Scan
pub mod Hex
pub mod Line
pub mod Pages
pub mod Lines
pub mod Whole
use os6_bmstu_iu.Common.{
  ℕ, zero, suc, ◌+◌, ◌-◌, ◌*◌, ◌/◌, ◌%◌, ◌^◌, ◌≡◌, Bool, true, false, not, ◌&&◌, Option, none, some,
  List, [], ◌∷◌, ◌++◌, ℤ, codes, length, take, drop, set, get_elem?, is_nil, ltb, leb, ◌==◌,
  if◌then◌else◌, c_string, print,
}
use os6_bmstu_iu.Pagemap.{PagemapEntry, pagemap_get_entry, page_size}
use os6_bmstu_iu.Procinfo.{
  buf_size, Outcome, done, crashed, out_of_fuel, need, ◌>>=◌, Proc, title, get_path, lf,
}

-- `buffer[x]`
abbrev pub at : List ℕ → ℕ → Outcome ℕ
at buf x = need (get_elem? buf x)

abbrev pub word : ℕ
word = 2 ^ 64

-- `while (x && buffer[x] != '\n') x--;`
unfoldable pub back : List ℕ → ℕ → Outcome ℕ
back buf zero = done zero
back buf (suc x) = do
  let lower = back buf x
  c ← at buf (suc x)
  if c == lf then done (suc x) else lower

-- The start of the line that ends at `i`.
unfoldable pub line_start : List ℕ → ℕ → Outcome ℕ
line_start buf i = do x ← back buf (i - 1); c ← at buf x; done (if c == lf then suc x else x)

-- `while (buffer[x] != c && x < sizeof buffer) x++;`
unfoldable pub until : (fuel : ℕ) → (c : ℕ) → List ℕ → ℕ → Outcome ℕ
until zero c buf x = out_of_fuel
until (suc n) c buf x = do
  let next = until n c buf (suc x)
  d ← at buf x
  if d == c then done x else next

-- `while (buffer[x] == c && x < sizeof buffer) x++;`
unfoldable pub over : (fuel : ℕ) → (c : ℕ) → List ℕ → ℕ → Outcome ℕ
over zero c buf x = out_of_fuel
over (suc n) c buf x = do
  let next = over n c buf (suc x)
  d ← at buf x
  if d == c then next else done x

-- The value of a digit.
unfoldable pub digit : ℕ → Option ℕ
digit c =
    if leb (b'0') c && leb c (b'9')
    then some (c - b'0')
    else if leb (b'a') c && leb c (b'f')
    then some (c - b'a' + 10)
    else none

-- The loop over the digits up to `stop`, in 64 bits; anything else ends it.
unfoldable pub hex : (fuel : ℕ) → (stop : ℕ) → List ℕ → (x value : ℕ) → Outcome (ℕ × ℕ)
hex zero stop buf x value = out_of_fuel
hex (suc n) stop buf x value = at buf x >>= λ c.
    if c == stop then done (x, value) else elim (digit c) [
      | none ↦ done (suc x, value * 16 % word)
      | some d ↦ hex n stop buf (suc x) ((value * 16 + d) % word)
    ]

-- `for (int field = 0; field < 4; field++)`: to the space behind the next `k` fields.
unfoldable pub skip_fields : ℕ → List ℕ → ℕ → Outcome ℕ
skip_fields zero buf x = done x
skip_fields (suc k) buf x = until (suc (length buf)) (b' ') buf (suc x) >>= skip_fields k buf

-- What a line says: `low`, `high` and `lib_name`.
pub record Range : Type 0 where
  pub low : ℕ
  pub high : ℕ
  pub lib_name : List ℕ

-- The line that ends at `i`. A zero is put at its end for the name, and the line end is put back
-- behind the loop over the pages. No loop goes further than the buffer is long.
unfoldable pub parse : List ℕ → ℕ → Outcome Range
parse buf i = do
  let fuel = suc (length buf)
  x ← line_start buf i
  (x1, low) ← hex fuel (b'-') buf x 0
  x2 ← until fuel (b'-') buf x1
  c ← at buf x2
  (x3, high) ← hex fuel (b' ') buf (if c == b'-' then suc x2 else x2) 0
  x4 ← skip_fields 4 buf x3
  x5 ← over fuel (b' ') buf x4
  y ← until fuel lf buf x5
  lib_name ← need (c_string (drop x5 (set buf y 0)))
  done (record { low = low; high = high; lib_name = lib_name })
