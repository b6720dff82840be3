-- ===== src/Turns/Whole.antt =====
-- lab_05/src/app2_threads_right.c: what each thread prints stays together.
use os6_bmstu_iu.Common.{
  ◌-◌, some-eq, none-some, ℕ, suc, ◌+◌, ◌≡◌, ◌≢◌, refl, ap, sym, ◌∙◌, subst, true, false, Option,
  none, some, List, [], ◌∷◌, ◌++◌, append-nil, append_assoc, arith, take, take-le, take-get,
  get-none, get_elem?,
}
use mathlib.Core.List.{map-append}
use os6_bmstu_iu.Turns.Paired.{Paired, reach-Paired}
use os6_bmstu_iu.Alphabet.{Thread, first, second, put}
use os6_bmstu_iu.Alphabet.Threads.{put-same, put-other}
use os6_bmstu_iu.Turns.{
  unborn, created, ready, reading, got, leaving, stopped, returned, failed, Piece, letter, feed,
  message, System, start, Step, create, refuse, newline, lock, read, at_end, write, unlock, join,
  Reach, begin, next,
}
use os6_bmstu_iu.Turns.Moves.{
  letters, letters-append, pair, by, other, Order, nobody, only, both, whole, gone, is_behind,
  is_inside, progress, IsTurn, moved, moved-IsTurn, at_stage, apart-IsTurn, inner-IsTurn,
}

-- The order when one more thread has left its loop.
abbrev add : Order → Thread → Order
add nobody t = only t
add (only u) t = both u
add (both u) t = both u

gone-add : (o : Order) (t : Thread) → gone o t ≡ false → true ≡ gone (add o t) t
gone-add nobody first e = refl
gone-add nobody second e = refl
gone-add (only u) t e = refl
gone-add (both u) t e = refl

gone-add_other :
    (o : Order) (t : Thread) → gone o t ≡ false → (u : Thread) → u ≢ t → gone o u ≡ gone (add o t) u
gone-add_other nobody first e first away = absurd (away refl)
gone-add_other nobody first e second away = refl
gone-add_other nobody second e first away = refl
gone-add_other nobody second e second away = absurd (away refl)
gone-add_other (only first) first e u away = cc
gone-add_other (only first) second e first away = refl
gone-add_other (only first) second e second away = absurd (away refl)
gone-add_other (only second) first e first away = absurd (away refl)
gone-add_other (only second) first e second away = refl
gone-add_other (only second) second e u away = cc
gone-add_other (both v) t e u away = cc

whole-add :
    (file : List ℕ) (o : Order) (t : Thread)
    → gone o t ≡ false
    → whole file o ++ by t file ≡ whole file (add o t)
whole-add file nobody t e = refl
whole-add file (only first) first e = cc
whole-add file (only first) second e = refl
whole-add file (only second) first e = refl
whole-add file (only second) second e = cc
whole-add file (both u) t e = cc

-- A byte more of the file behind what was there.
letters-more :
    (file : List ℕ) (out : List Piece) (l : List (Thread × ℕ)) (t : Thread) (c k : ℕ)
    → get_elem? file k ≡ some c
    → letters out ≡ l ++ by t (take k file)
    → letters (out ++ (letter t c ∷ [])) ≡ l ++ by t (take (suc k) file)
letters-more file out l t c k byte same =
    rw
      (
        letters-append out (letter t c ∷ []),
        same,
        take-get file k c byte,
        map-append (pair t) (take k file) (c ∷ []),
      )
      (append_assoc l (by t (take k file)) ((t, c) ∷ []))

letters-feed : (out : List Piece) → letters out ≡ letters (out ++ (feed ∷ []))
letters-feed out = sym (letters-append out (feed ∷ []) ∙ append-nil (letters out))

letters-message : (out : List Piece) (m : List ℕ) → letters out ≡ letters (out ++ (message m ∷ []))
letters-message out m = sym (letters-append out (message m ∷ []) ∙ append-nil (letters out))

step-IsTurn : (file : List ℕ) (s s' : System) → IsTurn file s → Step file s s' → IsTurn file s'
unfolding moved
step-IsTurn file s s' h (create e e2) =
    let zero_offset = at_stage file s h second unborn e2 in
    let born = apart-IsTurn file s h second s.out unborn ready e2 refl refl refl zero_offset refl in
    apart-IsTurn file (moved file s h second s.out s.mutex ready s.offset) born first s.out unborn
      created e refl refl refl (at_stage file s h first unborn e) refl
step-IsTurn file s s' h (refuse e) =
    apart-IsTurn file s h first _ unborn failed e refl refl refl tt (letters-message s.out _)
step-IsTurn file s s' h (newline e) =
    apart-IsTurn file s h first _ created ready e refl refl refl (at_stage file s h first created e)
      (letters-feed s.out)
step-IsTurn file s s' h (lock t e free) =
    moved-IsTurn file s h t s.out (some t) reading s.offset h.order
      (ap is_behind (sym e) ∙ h.left t) (λ u away. refl) (λ inside. refl) (λ own. refl)
      (λ u away taken. absurd (none-some free taken))
      (λ u away taken. absurd (away (sym (some-eq taken)))) tt (λ u away. refl)
      (λ not_yet. absurd (none-some not_yet refl))
      (λ own.
        rw (at_stage file s h t ready e) (h.idle free ∙ sym (append-nil (whole file h.order))))
      (λ u away taken. absurd (away (sym (some-eq taken))))
step-IsTurn file s s' h (read t c e byte) =
    inner-IsTurn file s h t s.out reading (got c) (put t (s.offset t + 1) s.offset) e refl refl refl
      refl (s.offset t, put-same t (s.offset t + 1) s.offset, byte)
      (λ u away. sym (put-other t (s.offset t + 1) s.offset u away))
      (λ same.
        rw (put-same t (s.offset t + 1) s.offset) (
          subst (λ n. letters s.out ≡ whole file h.order ++ by t (take n file)) (omega arith) same))
step-IsTurn file s s' h (at_end t e no_byte) =
    inner-IsTurn file s h t s.out reading leaving s.offset e refl refl refl refl
      (get-none file (s.offset t) no_byte) (λ u away. refl) (λ same. same)
step-IsTurn file s s' h (write t c e) =
    let (k, at, byte) = at_stage file s h t (got c) e in
    let before : s.offset t - 1 ≡ k = omega (arith, at) in
    let after : suc k ≡ s.offset t = omega (arith, at) in
    let Printed : List Piece → ℕ → Type 0 =
      λ out n. letters out ≡ whole file h.order ++ by t (take n file) in
    inner-IsTurn file s h t (s.out ++ (letter t c ∷ [])) (got c) reading s.offset e refl refl refl
      refl tt (λ u away. refl)
      (λ same. subst (Printed (s.out ++ (letter t c ∷ []))) after (
        letters-more file s.out (whole file h.order) t c k byte
          (subst (Printed s.out) before same)))
step-IsTurn file s s' h (unlock t e) =
    let own = h.owner t (ap is_inside e) in
    let not_yet : gone h.order t ≡ false = sym (h.left t) ∙ ap is_behind e in
    let printed =
      subst (λ w. letters s.out ≡ whole file h.order ++ by t (progress file w (s.offset t))) e
        (h.busy t own) in
    moved-IsTurn file s h t s.out none stopped s.offset (add h.order t) (gone-add h.order t not_yet)
      (gone-add_other h.order t not_yet) (λ inside. cc) (λ taken. absurd (none-some refl taken))
      (λ u away taken. absurd (away (some-eq (sym taken ∙ own))))
      (λ u away taken. absurd (none-some refl taken)) tt (λ u away. refl)
      (λ free.
        printed
        ∙ ap (λ l. whole file h.order ++ by t l)
            (take-le file (s.offset t) (at_stage file s h t leaving e))
        ∙ whole-add file h.order t not_yet)
      (λ taken. absurd (none-some refl taken)) (λ u away taken. absurd (none-some refl taken))
step-IsTurn file s s' h (join e e2) =
    apart-IsTurn file s h first _ stopped returned e refl refl refl tt (letters-feed s.out)

start-IsTurn : (file : List ℕ) → IsTurn file start
start-IsTurn file = record {
  order = nobody;
  left = λ t. refl;
  owner = λ t inside. cc;
  held = λ t taken. absurd (none-some refl taken);
  fits = λ t. refl;
  idle = λ free. refl;
  busy = λ t taken. absurd (none-some refl taken);
}

pub reach-IsTurn : (file : List ℕ) (s : System) → Reach file s → IsTurn file s
reach-IsTurn file s begin = start-IsTurn file
reach-IsTurn file s (next {s = s0} past step) =
    step-IsTurn file s0 s (reach-IsTurn file s0 past) step

both_of : (o : Order) → gone o first ≡ true → gone o second ≡ true → (t : Thread) × (o ≡ both t)
both_of nobody e e2 = cc
both_of (only first) e e2 = cc
both_of (only second) e e2 = cc
both_of (both t) e e2 = (t, refl)

-- Once `main` has returned, what has been written of the file is the whole file by one thread and
-- then the whole file by the other, whichever came first, under any interleaving of their steps.
pub letters-returned :
    (file : List ℕ) (s : System)
    → Reach file s
    → s.stage first ≡ returned
    → (t : Thread) × (letters s.out ≡ by t file ++ by (other t) file)
letters-returned file s r e =
    let h = reach-IsTurn file s r in
    let stays = subst (λ v. Paired v (s.stage second)) e (reach-Paired file s r) in
    let (t, same) =
      both_of h.order (sym (h.left first) ∙ ap is_behind e)
        (sym (h.left second) ∙ ap is_behind stays) in
    (t, h.idle (free h stays s.mutex refl) ∙ ap (whole file) same)
  where
    free :
        IsTurn file s
        → s.stage second ≡ stopped
        → (m : Option Thread) → s.mutex ≡ m
        → s.mutex ≡ none
    free h stays none own = own
    free h stays (some first) own =
        let inside : is_inside returned ≡ true = ap is_inside (sym e) ∙ h.held first own in cc
    free h stays (some second) own =
        let inside : is_inside stopped ≡ true = ap is_inside (sym stays) ∙ h.held second own in cc
