-- ===== src/Procinfo/Maps/Lines.antt =====
-- Maps as the kernel writes them.
use os6_bmstu_iu.Common.{
  none-some, ℕ, zero, suc, ◌≡◌, refl, ap, sym, ◌∙◌, none, List, [], ◌∷◌, ◌++◌, append_assoc, arith,
  replicate,
}
use os6_bmstu_iu.Procinfo.{lf, space}
use os6_bmstu_iu.Procinfo.Maps.{digit}
use os6_bmstu_iu.Procinfo.Maps.Scan.{Without, AreDigits}
use os6_bmstu_iu.Procinfo.Maps.Hex.{print_hex, print_hex-AreDigits}
use os6_bmstu_iu.Procinfo.Maps.Line.{MapLine, text, IsLine}

abbrev pub line_text : MapLine → List ℕ
line_text l = text l []

abbrev pub maps_text : List MapLine → List ℕ
maps_text [] = []
maps_text (l ∷ ls) = line_text l ++ (lf ∷ maps_text ls)

abbrev pub AreLines : List MapLine → Type 0
AreLines [] = Unit {0}
AreLines (l ∷ ls) = IsLine l × AreLines ls

pub text-append : (l : MapLine) (rest : List ℕ) → text l rest ≡ line_text l ++ rest
text-append l rest = simp append_assoc

append-Without : (c : ℕ) (s t : List ℕ) → Without c s → Without c t → Without c (s ++ t)
append-Without c [] t hs ht = ht
append-Without c (d ∷ s) t hs ht = (hs.0, append-Without c s t (hs.1) ht)

digit-lf : digit lf ≡ none
unfolding digit
digit-lf = refl

AreDigits-Without : (s : List ℕ) → AreDigits s → Without lf s
AreDigits-Without [] h = tt
AreDigits-Without (c ∷ s) h =
    ((λ e. none-some digit-lf (ap digit (sym e) ∙ h.0)), AreDigits-Without s (h.1))

spaces-Without : (k : ℕ) → Without lf (replicate k space)
spaces-Without zero = tt
spaces-Without (suc k) = ((λ e. omega arith), spaces-Without k)

behind_space : (s t : List ℕ) → Without lf s → Without lf t → Without lf (s ++ (space ∷ t))
behind_space s t hs ht = append-Without lf s (space ∷ t) hs ((λ e. omega arith), ht)

-- A line has no line end inside.
pub line_text-Without : (l : MapLine) → IsLine l → Without lf (line_text l)
line_text-Without l h =
    append-Without lf (print_hex l.low) _ (AreDigits-Without _ (print_hex-AreDigits l.low)) (
      (λ e. omega arith),
      behind_space _ _ (AreDigits-Without _ (print_hex-AreDigits l.high)) (
          behind_space _ _ (h.perms.1) (
            behind_space _ _ (h.offset.1) (
              behind_space _ _ (h.dev.1) (
                behind_space _ _ (h.inode.1) (
                  append-Without lf (replicate l.more_spaces space) _ (spaces-Without l.more_spaces)
                    (append-Without lf l.name [] h.name_line tt)))))),
    )

-- A line has a first byte.
pub first_byte : (l : MapLine) → (c : ℕ) × (s : List ℕ) × (line_text l ≡ c ∷ s)
first_byte l = by_digits (print_hex l.low) _
  where
    by_digits : (a b : List ℕ) → (c : ℕ) × (s : List ℕ) × (a ++ (b'-' ∷ b) ≡ c ∷ s)
    by_digits [] b = (b'-', b, refl)
    by_digits (c ∷ a) b = (c, a ++ (b'-' ∷ b), refl)
