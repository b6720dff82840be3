-- ===== src/Procinfo/Maps/Line.antt =====
-- lab_04/part1/lib/output_funcs.c: a line of maps is read as it was written.
use os6_bmstu_iu.Common.{
  ℕ, suc, ◌+◌, ◌≤◌, ◌≡◌, ◌≢◌, refl, ap, ◌∙◌, subst, none, some, List, [], ◌∷◌, ◌++◌, arith, length,
  drop, set, set-append, replicate, length-replicate, get_elem?, c_string, c_string-append, NonZero,
}
use os6_bmstu_iu.Procinfo.{done, lf, space}
use os6_bmstu_iu.Pagemap.{page_size}
use os6_bmstu_iu.Procinfo.Maps.{
  word, line_start, until, over, digit, hex, skip_fields, Range, parse,
}
use os6_bmstu_iu.Procinfo.Maps.Scan.{
  drop-suc, get-drop, drop-plus, Without, until-found, over-found, hex-found, fits, until-here,
  drop-set,
}
use os6_bmstu_iu.Procinfo.Maps.Hex.{print_hex, print_hex-AreDigits, spell_hex-print_hex}

-- A line of maps: the range, the mode, offset, device and inode, spaces, and the name.
pub record MapLine : Type 0 where
  pub low : ℕ
  pub high : ℕ
  pub perms : List ℕ
  pub offset : List ℕ
  pub dev : List ℕ
  pub inode : List ℕ
  pub more_spaces : ℕ
  pub name : List ℕ

-- From the name on, from the inode on, and so on, with what follows the line.
abbrev pub text : MapLine → List ℕ → List ℕ
text l rest =
    print_hex l.low
    ++ (b'-'
        ∷ (print_hex l.high
            ++ (space
                ∷ (l.perms
                    ++ (space
                        ∷ (l.offset
                            ++ (space
                                ∷ (l.dev
                                    ++ (space
                                        ∷ (l.inode
                                            ++ (space
                                                ∷ (replicate l.more_spaces space
                                                    ++ (l.name ++ rest)))))))))))))

-- A field has no space and no line end.
abbrev pub IsField : List ℕ → Type 0
IsField f = Without space f × Without lf f

-- The range is in order and ends a page before the last address of 64 bits or earlier; the name does
-- not start with a space, and has no line end and no zero.
pub record IsLine (l : MapLine) : Type 0 where
  pub ordered : l.low ≤ l.high
  pub no_wrap : l.high + page_size ≤ word
  pub perms : IsField l.perms
  pub offset : IsField l.offset
  pub dev : IsField l.dev
  pub inode : IsField l.inode
  pub name_line : Without lf l.name
  pub name_zero : NonZero l.name
  pub name_start : (c : ℕ) (s : List ℕ) → l.name ≡ c ∷ s → c ≢ space

-- Over one space and a field to the next space.
skip_field :
    (x : ℕ) (buf f rest : List ℕ)
    → drop x buf ≡ space ∷ (f ++ (space ∷ rest))
    → Without space f
    → (until (suc (length buf)) space buf (suc x) ≡ done (suc x + length f))
      × (drop (suc x + length f) buf ≡ space ∷ rest)
skip_field x buf f rest e free =
    let there = drop-suc x space buf (f ++ (space ∷ rest)) e in
    (
      until-found (suc (length buf)) space (suc x) buf f rest
          (fits (suc x) buf f (space ∷ rest) there) there free,
      drop-plus (suc x) buf f (space ∷ rest) there,
    )

-- Over four fields.
skip_fields-found :
    (x : ℕ) (buf f1 f2 f3 f4 rest : List ℕ)
    → drop x buf
      ≡ space ∷ (f1 ++ (space ∷ (f2 ++ (space ∷ (f3 ++ (space ∷ (f4 ++ (space ∷ rest))))))))
    → Without space f1
    → Without space f2
    → Without space f3
    → Without space f4
    → (y : ℕ) × (skip_fields 4 buf x ≡ done y) × (drop y buf ≡ space ∷ rest)
unfolding skip_fields
skip_fields-found x buf f1 f2 f3 f4 rest e w1 w2 w3 w4 =
    let (s1, e1) =
      skip_field x buf f1 (f2 ++ (space ∷ (f3 ++ (space ∷ (f4 ++ (space ∷ rest)))))) e w1 in
    let (s2, e2) =
      skip_field (suc x + length f1) buf f2 (f3 ++ (space ∷ (f4 ++ (space ∷ rest)))) e1 w2 in
    let (s3, e3) =
      skip_field (suc (suc x + length f1) + length f2) buf f3 (f4 ++ (space ∷ rest)) e2 w3 in
    let (s4, e4) =
      skip_field (suc (suc (suc x + length f1) + length f2) + length f3) buf f4 rest e3 w4 in
    (_, rw (s1, s2, s3, s4) refl, e4)

-- The name ends at the line end, where the zero is put.
name_read :
    (x : ℕ) (buf name rest : List ℕ)
    → drop x buf ≡ name ++ (lf ∷ rest)
    → NonZero name
    → c_string (drop x (set buf (x + length name) 0)) ≡ some name
name_read x buf name rest e real =
    ap c_string (
      drop-set x (length name) 0 buf
      ∙ ap (λ t. set t (length name) 0) e
      ∙ set-append name lf 0 rest (length name) refl)
    ∙ c_string-append name rest real

-- What follows the spaces is none.
first_of :
    (name rest : List ℕ)
    → ((c : ℕ) (s : List ℕ) → name ≡ c ∷ s → c ≢ space)
    → (d : ℕ) × (t : List ℕ) × (name ++ (lf ∷ rest) ≡ d ∷ t) × (d ≢ space)
first_of [] rest h = (lf, rest, refl, λ e. omega arith)
first_of (c ∷ s) rest h = (c, s ++ (lf ∷ rest), refl, h c s refl)

-- From the space behind the inode to the name.
spaces_read :
    (x m : ℕ) (buf name rest : List ℕ)
    → drop x buf ≡ space ∷ (replicate m space ++ (name ++ (lf ∷ rest)))
    → ((c : ℕ) (s : List ℕ) → name ≡ c ∷ s → c ≢ space)
    → (over (suc (length buf)) space buf x ≡ done (x + suc m))
      × (drop (x + suc m) buf ≡ name ++ (lf ∷ rest))
spaces_read x m buf name rest e starts =
    let (d, t, front, other) = first_of name rest starts in
    let e' : drop x buf ≡ replicate (suc m) space ++ (name ++ (lf ∷ rest)) = e in
    let size : length (replicate (suc m) space) ≡ suc m = length-replicate (suc m) space in
    (
      over-found (suc (length buf)) space d x (suc m) buf t
          (omega (arith, size, fits x buf (replicate (suc m) space) (name ++ (lf ∷ rest)) e'))
          (e' ∙ ap (λ u. replicate (suc m) space ++ u) front) other,
      subst (λ n. drop (x + n) buf ≡ name ++ (lf ∷ rest)) size
          (drop-plus x buf (replicate (suc m) space) (name ++ (lf ∷ rest)) e'),
    )

digit-dash : digit (b'-') ≡ none
unfolding digit
digit-dash = refl

digit-space : digit space ≡ none
unfolding digit
digit-space = refl

-- What a line says.
abbrev pub range_of : MapLine → Range
range_of l = record { low = l.low; high = l.high; lib_name = l.name }

-- A line that was written is read as the range and the name that it was written for.
pub parse-text :
    (l : MapLine) (buf : List ℕ) (x i : ℕ) (rest : List ℕ)
    → IsLine l
    → drop x buf ≡ text l (lf ∷ rest)
    → line_start buf i ≡ done x
    → parse buf i ≡ done (range_of l)
unfolding parse
parse-text l buf x i rest h e starts =
    let lows = print_hex l.low in
    let highs = print_hex l.high in
    let fuel : ℕ = suc (length buf) in
    let behind =
      l.perms
      ++ (space
          ∷ (l.offset
              ++ (space
                  ∷ (l.dev
                      ++ (space
                          ∷ (l.inode
                              ++ (space
                                  ∷ (replicate l.more_spaces space
                                      ++ (l.name ++ (lf ∷ rest)))))))))) in
    let from_high = highs ++ (space ∷ behind) in
    let x1 : ℕ = x + length lows in
    let e1 : drop x1 buf ≡ b'-' ∷ from_high = drop-plus x buf lows (b'-' ∷ from_high) e in
    let low_read : hex fuel (b'-') buf x 0 ≡ done (x1, l.low) =
      hex-found fuel (b'-') x 0 buf lows from_high (fits x buf lows (b'-' ∷ from_high) e) e
        digit-dash (print_hex-AreDigits l.low)
      ∙ ap (λ v. done (x1, v)) (spell_hex-print_hex l.low (omega (arith, h.ordered, h.no_wrap))) in
    let dash : until fuel (b'-') buf x1 ≡ done x1 =
      until-here (length buf) (b'-') x1 buf from_high e1 in
    let at_dash : get_elem? buf x1 ≡ some (b'-') = get-drop x1 (b'-') buf from_high e1 in
    let e2 : drop (suc x1) buf ≡ from_high = drop-suc x1 (b'-') buf from_high e1 in
    let x3 : ℕ = suc x1 + length highs in
    let high_read : hex fuel space buf (suc x1) 0 ≡ done (x3, l.high) =
      hex-found fuel space (suc x1) 0 buf highs behind (fits (suc x1) buf highs (space ∷ behind) e2)
        e2 digit-space (print_hex-AreDigits l.high)
      ∙ ap (λ v. done (x3, v)) (spell_hex-print_hex l.high (omega (arith, h.no_wrap))) in
    let e3 : drop x3 buf ≡ space ∷ behind = drop-plus (suc x1) buf highs (space ∷ behind) e2 in
    let (x4, skipped, e4) =
      skip_fields-found x3 buf l.perms l.offset l.dev l.inode
        (replicate l.more_spaces space ++ (l.name ++ (lf ∷ rest))) e3 (h.perms.0) (h.offset.0)
        (h.dev.0) (h.inode.0) in
    let (spaces, e5) = spaces_read x4 l.more_spaces buf l.name rest e4 h.name_start in
    let x5 : ℕ = x4 + suc l.more_spaces in
    let line_ends : until fuel lf buf x5 ≡ done (x5 + length l.name) =
      until-found fuel lf x5 buf l.name rest (fits x5 buf l.name (lf ∷ rest) e5) e5 h.name_line in
    let named = name_read x5 buf l.name rest e5 h.name_zero in
    rw (starts, low_read, dash, at_dash, high_read, skipped, spaces, line_ends, named) refl
