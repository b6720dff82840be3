-- ===== src/Select/Slots.antt =====
-- lab_08/part2/server.c: the places of the clients and the connections.
use os6_bmstu_iu.Common.{
  times, ℕ, ◌+◌, ◌≤◌, ◌<◌, ◌≡◌, ◌≢◌, refl, true, false, List, [], ◌∷◌, arith, ltb, ◌==◌, ==_ne,
  if◌then◌else◌, length, Bool-cases, inl, inr,
}
use os6_bmstu_iu.Select.{place, without, watch, is_in}

-- 1 if the numbers are the same, 0 otherwise.
abbrev pub one_if : ℕ → ℕ → ℕ
one_if fd v = if fd == v then 1 else 0

pub times-without :
    (fd v : ℕ) (vs : List ℕ) → 1 ≤ times v vs → times fd (without v vs) + one_if fd v ≡ times fd vs
times-without fd v [] h = absurd (omega arith)
times-without fd v (w ∷ vs) h = ground (arith, times-without fd v vs)

-- With a free place the new client gets it.
pub place-free :
    (n : ℕ) (vs : List ℕ)
    → 1 ≤ times 0 vs
    → ((place n vs).1 ≡ false)
      × ((fd : ℕ) → fd ≢ 0 → times fd ((place n vs).0) ≡ times fd vs + one_if fd n)
unfolding place
place-free n [] h = absurd (omega arith)
place-free n (v ∷ vs) h = elim (Bool-cases (v == 0)) [
  | inl empty ↦ (rw empty, λ fd used. rw empty (ground arith))
  | inr taken ↦
      let (placed, counts) = place-free n vs (ground arith) in
      (rw taken placed, λ fd used. rw taken (ground (arith, counts fd used)))
]

-- Without one nothing changes.
pub place-full : (n : ℕ) (vs : List ℕ) → times 0 vs ≡ 0 → place n vs ≡ (vs, true)
unfolding place
place-full n [] h = refl
place-full n (v ∷ vs) h =
    let occupied : v ≢ 0 = λ e. taken e in
    let rest : place n vs ≡ (vs, true) = place-full n vs (ground arith) in
    rw (==_ne v 0 occupied, rest)
  where
    taken : v ≡ 0 → ⊥
    taken e = ground arith

pub length-place : (n : ℕ) (vs : List ℕ) → length ((place n vs).0) ≡ length vs
unfolding place
length-place n [] = refl
length-place n (v ∷ vs) = ground (arith, length-place n vs)

with_v :
    (v : ℕ) (set : List ℕ) (max_sock : ℕ)
    → ((fd : ℕ) → is_in fd set ≡ true → fd ≤ max_sock)
    → (fd : ℕ) → is_in fd (v ∷ set) ≡ true
    → fd ≤ (if ltb max_sock v then v else max_sock)
with_v v set max_sock below fd inside = elim (Bool-cases (is_in fd set)) [
  | inl there ↦ ground (arith, below fd there)
  | inr other ↦ ground (arith, other)
]

is_in-times : (fd : ℕ) (set : List ℕ) → 1 ≤ times fd set → is_in fd set ≡ true
is_in-times fd [] h = absurd (omega arith)
is_in-times fd (v ∷ set) h = ground (arith, is_in-times fd set)

-- No watched descriptor is above `max_sock`.
pub watch-max :
    (vs set : List ℕ) (max_sock : ℕ)
    → ((fd : ℕ) → is_in fd set ≡ true → fd ≤ max_sock)
    → (fd : ℕ) → is_in fd ((watch vs set max_sock).0) ≡ true
    → fd ≤ (watch vs set max_sock).1
unfolding watch
watch-max [] set max_sock below fd inside = below fd inside
watch-max (v ∷ vs) set max_sock below fd inside = elim (Bool-cases (ltb 0 v)) [
  | inr free ↦ rw free (watch-max vs set max_sock below fd (rw free at inside))
  | inl used ↦ rw used (
      watch-max vs (v ∷ set) (if ltb max_sock v then v else max_sock) (with_v v set max_sock below)
        fd (rw used at inside))
]

pub watch-all :
    (vs set : List ℕ) (max_sock fd : ℕ)
    → 0 < fd
    → 1 ≤ times fd vs + times fd set
    → is_in fd ((watch vs set max_sock).0) ≡ true
unfolding watch
watch-all [] set max_sock fd used h = is_in-times fd set (omega arith)
watch-all (v ∷ vs) set max_sock fd used h = elim (Bool-cases (ltb 0 v)) [
  | inl there ↦ rw there (watch-all vs (v ∷ set) _ fd used (ground arith))
  | inr free ↦ rw free (watch-all vs set max_sock fd used (ground (arith, free)))
]

-- Every client with a descriptor above 0 is in the set that `select` gets, and not above
-- `max_sock`.
pub watch-covers :
    (vs : List ℕ) (sock fd : ℕ)
    → 0 < fd
    → 1 ≤ times fd vs
    → (is_in fd ((watch vs (sock ∷ []) sock).0) ≡ true) × (fd ≤ (watch vs (sock ∷ []) sock).1)
watch-covers vs sock fd used client =
    let inside = watch-all vs (sock ∷ []) sock fd used (ground arith) in
    (inside, watch-max vs (sock ∷ []) sock (λ other inside. ground arith) fd inside)

-- The listening socket is watched.
pub watch-sock : (vs : List ℕ) (sock : ℕ) → is_in sock ((watch vs (sock ∷ []) sock).0) ≡ true
unfolding watch
watch-sock vs sock = keeps vs (sock ∷ []) sock (ground arith)
  where
    keeps :
        (vs set : List ℕ) (max_sock : ℕ)
        → is_in sock set ≡ true
        → is_in sock ((watch vs set max_sock).0) ≡ true
    keeps [] set max_sock h = h
    keeps (v ∷ vs) set max_sock h = elim (Bool-cases (ltb 0 v)) [
      | inl used ↦ rw used (keeps vs (v ∷ set) _ (ground arith))
      | inr free ↦ rw free (keeps vs set max_sock h)
    ]
