-- ===== src/Keyboard/Keys/Kept.antt =====
-- lab_09/part1/main.c: which keys the buffer keeps, and what a reader is shown.
use os6_bmstu_iu.Common.{
  ℕ, zero, suc, ◌+◌, ◌≤◌, ◌<◌, ◌≡◌, refl, ap, sym, ◌∙◌, Option, none, some, List, [], ◌∷◌, ◌++◌,
  append_assoc, arith, ltb, if◌then◌else◌, length, get_elem?, set, set-append, get-append,
  length-append, length-set, length-replicate, replicate, Bool-cases, ltb→lt, Option-cases, inl,
  inr,
}
use os6_bmstu_iu.Keyboard.Keys.{
  Key, ascii, pos_max, Keys, no_keys, my_tasklet_function, print_from, f,
}

-- The keys as pointers.
abbrev pub pointers : List Key → List (Option Key)
pointers [] = []
pointers (k ∷ ks) = some k ∷ pointers ks

length-pointers : (ks : List Key) → length (pointers ks) ≡ length ks
length-pointers [] = refl
length-pointers (k ∷ ks) = ap suc (length-pointers ks)

pointers-append : (ks ls : List Key) → pointers (ks ++ ls) ≡ pointers ks ++ pointers ls
pointers-append [] ls = refl
pointers-append (k ∷ ks) ls = ap (◌∷◌ (some k)) (pointers-append ks ls)

-- The buffer keeps the keys `ks`, in their order; behind them stand `rest`.
pub record Keeps (s : Keys) (ks : List Key) : Type 0 where
  pub rest : List (Option Key)
  pub layout : s.simbol ≡ pointers ks ++ rest
  pub pos_lem : s.pos_simbol ≡ length ks
  pub size : length s.simbol ≡ pos_max

pub no_keys-Keeps : Keeps no_keys []
no_keys-Keeps = record {
  rest = replicate pos_max none;
  layout = refl;
  pos_lem = refl;
  size = length-replicate {A = Option Key} pos_max none;
}

-- The keys kept after one more: a full buffer is emptied, and the key is lost.
abbrev pub press : ℕ → List Key → List Key
press code ks =
    if ltb code 84
    then (if ltb (length ks) pos_max
        then elim (get_elem? ascii code) [ none ↦ ks | some k ↦ ks ++ (k ∷ []) ]
        else [])
    else ks

-- Every code below 84 has a name.
pub ascii-named : (code : ℕ) → code < 84 → (k : Key) × (get_elem? ascii code ≡ some k)
ascii-named code small = get-below ascii code small
  where
    get-below : (xs : List Key) (i : ℕ) → i < length xs → (k : Key) × (get_elem? xs i ≡ some k)
    get-below [] i h = absurd (omega arith)
    get-below (x ∷ xs) zero h = (x, refl)
    get-below (x ∷ xs) (suc i) h = get-below xs i (omega arith)

-- While the buffer is not full, something stands behind the keys.
pub behind :
    (s : Keys) (ks : List Key) (h : Keeps s ks)
    → length ks < pos_max
    → (y : Option Key) × (ys : List (Option Key)) × (h.rest ≡ y ∷ ys)
behind s ks h free = cons h.rest (
    omega
      (arith, h.size, ap length h.layout, length-append (pointers ks) h.rest, length-pointers ks))
  where
    cons :
        (l : List (Option Key))
        → 0 < length l
        → (y : Option Key) × (ys : List (Option Key)) × (l ≡ y ∷ ys)
    cons [] h = absurd (omega arith)
    cons (y ∷ ys) h = (y, ys, refl)

-- A run of the tasklet never leaves the arrays: a code without a name changes nothing, a key is
-- added to those kept while they are fewer than 1000, and otherwise all are dropped, that key
-- included.
pub my_tasklet_function-Keeps :
    (code : ℕ) (s : Keys) (ks : List Key)
    → Keeps s ks
    → (s' : Keys) × (my_tasklet_function code s ≡ some s') × Keeps s' (press code ks)
unfolding my_tasklet_function
my_tasklet_function-Keeps code s ks h = elim (Bool-cases (ltb code 84)) [
  | inr other ↦ (s, rw other, rw other h)
  | inl known ↦
      let (k, name) = ascii-named code (ltb→lt code 84 known) in
      elim (Bool-cases (ltb (length ks) pos_max)) [
        | inr full ↦ (
          record s { pos_simbol = 0 },
          rw (known, name, h.pos_lem, full),
          rw (known, full)
              (record { rest = s.simbol; layout = refl; pos_lem = refl; size = h.size }),
        )
        | inl free ↦
            let (y, rest, e) = behind s ks h (ltb→lt _ _ free) in
            let written : set s.simbol (length ks) (some k) ≡ pointers ks ++ (some k ∷ rest) =
              rw (h.layout, e)
                (set-append (pointers ks) y (some k) rest (length ks) (sym (length-pointers ks))) in
            (
              record { simbol = set s.simbol (length ks) (some k); pos_simbol = length ks + 1 },
              rw (known, name, h.pos_lem, free),
              rw (known, free, name)
                  (record {
                    rest = rest;
                    layout =
                        written
                        ∙ sym (append_assoc (pointers ks) (some k ∷ []) rest)
                        ∙ ap (λ l. l ++ rest) (sym (pointers-append ks (k ∷ [])));
                    pos_lem = sym (length-append ks (k ∷ []));
                    size = length-set s.simbol (length ks) (some k) ∙ h.size;
                  }),
            )
      ]
]

print_from-append :
    (xs ys : List (Option Key)) (i n : ℕ) (used : List (Option Key))
    → i ≡ length used
    → n ≡ length xs
    → print_from n i (used ++ (xs ++ ys)) ≡ some xs
unfolding print_from
print_from-append [] ys i zero used at count = refl
print_from-append [] ys i (suc n) used at count = absurd (omega arith)
print_from-append (x ∷ xs) ys i zero used at count = absurd (omega arith)
print_from-append (x ∷ xs) ys i (suc n) used at count =
    let shift : used ++ (x ∷ (xs ++ ys)) ≡ (used ++ (x ∷ [])) ++ (xs ++ ys) =
      sym (append_assoc used (x ∷ []) (xs ++ ys)) in
    let rest : print_from n (i + 1) (used ++ (x ∷ (xs ++ ys))) ≡ some xs = rw shift (
      print_from-append xs ys (i + 1) n (used ++ (x ∷ []))
        (omega (arith, length-append used (x ∷ []))) (omega arith)) in
    rw (get-append used x (xs ++ ys) i at, rest)

-- While fewer than 1000 keys are kept, a reader is shown them and one pointer more, the one that
-- stands behind them in the buffer.
pub f-Keeps :
    (s : Keys) (ks : List Key) (h : Keeps s ks)
    → length ks < pos_max
    → (y : Option Key) × (ys : List (Option Key)) × (h.rest ≡ y ∷ ys)
      × (f s ≡ some (pointers ks ++ (y ∷ [])))
unfolding f
f-Keeps s ks h free =
    let (y, ys, e) = behind s ks h free in
    (
      y,
      ys,
      e,
      rw (h.layout, e, sym (append_assoc (pointers ks) (y ∷ []) ys))
          (print_from-append (pointers ks ++ (y ∷ [])) ys 0 (s.pos_simbol + 1) [] refl
            (omega (arith, h.pos_lem, length-append (pointers ks) (y ∷ []), length-pointers ks))),
    )

print_from-past :
    (xs : List (Option Key)) (i n : ℕ)
    → length xs < i + n
    → i ≤ length xs
    → print_from n i xs ≡ none
unfolding print_from
print_from-past xs i zero past within = absurd (omega arith)
print_from-past xs i (suc n) past within = elim (Option-cases (get_elem? xs i)) [
  | inl e ↦ rw e
  | inr (k, e) ↦
      let rest : print_from n (i + 1) xs ≡ none =
        print_from-past xs (i + 1) n (omega arith) (get-within xs i k e) in
      rw (e, rest)
]
  where
    get-within :
        (l : List (Option Key)) (j : ℕ) (k : Option Key) → get_elem? l j ≡ some k → j + 1 ≤ length l
    get-within [] j k e = cc
    get-within (x ∷ l) zero k e = omega arith
    get-within (x ∷ l) (suc j) k e = omega (arith, get-within l j k e)

-- With 1000 keys kept, the loop of a read goes behind the array.
pub f-full : (s : Keys) (ks : List Key) → Keeps s ks → length ks ≡ pos_max → f s ≡ none
unfolding f
f-full s ks h full =
    print_from-past s.simbol 0 (s.pos_simbol + 1) (omega (arith, h.size, h.pos_lem)) (omega arith)
