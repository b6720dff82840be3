-- ===== src/Fortune/Cookie/Shape.antt =====
-- The fortunes that the buffer of lab_04/part2/fortune.c holds, read and to be read.
use os6_bmstu_iu.Common.{
  ℕ, ◌+◌, ◌≡◌, refl, ap, sym, ◌∙◌, List, [], ◌∷◌, ◌++◌, append_assoc, arith, length, length-append,
  length-replicate, replicate,
}
use os6_bmstu_iu.Fortune.Buffer.{page_size, NonZero}
use os6_bmstu_iu.Fortune.Cookie.{Fortune, fresh}

-- Each fortune is a C string, one behind the other.
abbrev pub encode : List (List ℕ) → List ℕ
encode [] = []
encode (c ∷ cs) = c ++ (0 ∷ encode cs)

abbrev pub AllNonZero : List (List ℕ) → Type 0
AllNonZero [] = Unit {0}
AllNonZero (c ∷ cs) = NonZero c × AllNonZero cs

pub encode-append : (xs ys : List (List ℕ)) → encode (xs ++ ys) ≡ encode xs ++ encode ys
encode-append [] ys = refl
encode-append (x ∷ xs) ys =
    ap (λ l. x ++ (0 ∷ l)) (encode-append xs ys) ∙ sym (append_assoc x (0 ∷ encode xs) (encode ys))

pub AllNonZero-append :
    (xs ys : List (List ℕ)) → AllNonZero xs → AllNonZero ys → AllNonZero (xs ++ ys)
AllNonZero-append [] ys hx hy = hy
AllNonZero-append (x ∷ xs) ys hx hy = (hx.0, AllNonZero-append xs ys hx.1 hy)

pub NonZero-append : (xs ys : List ℕ) → NonZero xs → NonZero ys → NonZero (xs ++ ys)
NonZero-append [] ys hx hy = hy
NonZero-append (x ∷ xs) ys hx hy = (hx.0, NonZero-append xs ys hx.1 hy)

-- The fortunes `before` have been read in this round, `after` come next.
pub record Holds (s : Fortune) (before after : List (List ℕ)) : Type 0 where
  pub free : List ℕ
  pub layout : s.cookie_buffer ≡ encode (before ++ after) ++ free
  pub wrote : s.write_ind ≡ length (encode (before ++ after))
  pub next : s.read_ind ≡ length (encode before)
  pub page : length s.cookie_buffer ≡ page_size
  pub scratch : length s.tmp_buffer ≡ page_size
  pub strings : AllNonZero (before ++ after)

pub fresh-Holds : Holds fresh [] []
fresh-Holds = record {
  free = replicate page_size 0;
  layout = refl;
  wrote = refl;
  next = refl;
  page = length-replicate {A = ℕ} page_size 0;
  scratch = length-replicate {A = ℕ} page_size 0;
  strings = tt;
}

-- What is not written makes up the page.
pub write_ind-free :
    (s : Fortune) (before after : List (List ℕ)) (h : Holds s before after)
    → s.write_ind + length h.free ≡ page_size
write_ind-free s before after h =
    omega
      (arith, h.wrote, h.page, ap length h.layout, length-append (encode (before ++ after)) h.free)
