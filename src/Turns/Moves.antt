-- ===== src/Turns/Moves.antt =====
-- lab_05/src/app2_threads_right.c: what holds between the steps, and what a step of one thread keeps.
use os6_bmstu_iu.Common.{
  ◌-◌, some-eq, none-some, ℕ, ◌+◌, ◌≤◌, ◌≡◌, ◌≢◌, refl, ap, sym, ◌∙◌, subst, Bool, true, false,
  Option, none, some, List, [], ◌∷◌, ◌++◌, map, length, take, get_elem?,
}
use os6_bmstu_iu.Alphabet.{Thread, first, second, put}
use os6_bmstu_iu.Alphabet.Threads.{put-all}
use os6_bmstu_iu.Turns.{
  Stage, unborn, created, ready, reading, got, leaving, stopped, returned, Piece, letter, feed,
  message, System,
}

-- The bytes of the file in the output, with the thread that wrote each.
abbrev pub letters : List Piece → List (Thread × ℕ)
letters [] = []
letters (letter t c ∷ ps) = (t, c) ∷ letters ps
letters (feed ∷ ps) = letters ps
letters (message m ∷ ps) = letters ps

pub letters-append : (ps qs : List Piece) → letters (ps ++ qs) ≡ letters ps ++ letters qs
letters-append [] qs = refl
letters-append (letter t c ∷ ps) qs = ap (◌∷◌ (t, c)) (letters-append ps qs)
letters-append (feed ∷ ps) qs = letters-append ps qs
letters-append (message m ∷ ps) qs = letters-append ps qs

abbrev pub pair : Thread → ℕ → Thread × ℕ
pair t c = (t, c)

abbrev pub by : Thread → List ℕ → List (Thread × ℕ)
by t = map (pair t)

abbrev pub other : Thread → Thread
other first = second
other second = first

-- Which threads are behind their loop, in the order they left it.
pub data Order : Type 0 where
  nobody : Order
  only : Thread → Order
  both : Thread → Order

abbrev pub whole : List ℕ → Order → List (Thread × ℕ)
whole file nobody = []
whole file (only t) = by t file
whole file (both t) = by t file ++ by (other t) file

abbrev pub gone : Order → Thread → Bool
gone nobody u = false
gone (only first) first = true
gone (only first) second = false
gone (only second) first = false
gone (only second) second = true
gone (both t) u = true

abbrev pub is_behind : Stage → Bool
is_behind stopped = true
is_behind returned = true
is_behind _ = false

abbrev pub is_inside : Stage → Bool
is_inside reading = true
is_inside (got c) = true
is_inside leaving = true
is_inside _ = false

-- The offset of a thread at its stage, and how much of the file it has printed so far.
abbrev pub Fits : List ℕ → Stage → ℕ → Type 0
Fits file unborn n = n ≡ 0
Fits file created n = n ≡ 0
Fits file ready n = n ≡ 0
Fits file (got c) n = (k : ℕ) × (n ≡ k + 1) × (get_elem? file k ≡ some c)
Fits file leaving n = length file ≤ n
Fits file _ n = Unit {0}

abbrev pub progress : List ℕ → Stage → ℕ → List ℕ
progress file (got c) n = take (n - 1) file
progress file v n = take n file

pub record IsTurn (file : List ℕ) (s : System) : Type 0 where
  pub order : Order
  pub left : (t : Thread) → is_behind (s.stage t) ≡ gone order t
  pub owner : (t : Thread) → is_inside (s.stage t) ≡ true → s.mutex ≡ some t
  pub held : (t : Thread) → s.mutex ≡ some t → is_inside (s.stage t) ≡ true
  pub fits : (t : Thread) → Fits file (s.stage t) (s.offset t)
  pub idle : s.mutex ≡ none → letters s.out ≡ whole file order
  pub busy :
      (t : Thread)
      → s.mutex ≡ some t
      → letters s.out ≡ whole file order ++ by t (progress file (s.stage t) (s.offset t))

-- One thread moves to another stage.
module _ (file : List ℕ) (s : System) (h : IsTurn file s) (t : Thread) where
  unfoldable pub moved : List Piece → Option Thread → Stage → (Thread → ℕ) → System
  moved o m v f = record { out = o; mutex = m; stage = put t v s.stage; offset = f }

  pub moved-IsTurn :
      (o : List Piece) (m : Option Thread) (v : Stage) (f : Thread → ℕ) (new : Order)
      → is_behind v ≡ gone new t
      → ((u : Thread) → u ≢ t → gone h.order u ≡ gone new u)
      → (is_inside v ≡ true → m ≡ some t)
      → (m ≡ some t → is_inside v ≡ true)
      → ((u : Thread) → u ≢ t → s.mutex ≡ some u → m ≡ some u)
      → ((u : Thread) → u ≢ t → m ≡ some u → s.mutex ≡ some u)
      → Fits file v (f t)
      → ((u : Thread) → u ≢ t → s.offset u ≡ f u)
      → (m ≡ none → letters o ≡ whole file new)
      → (m ≡ some t → letters o ≡ whole file new ++ by t (progress file v (f t)))
      → ((u : Thread)
          → u ≢ t
          → m ≡ some u
          → letters o ≡ whole file new ++ by u (progress file (s.stage u) (f u)))
      → IsTurn file (moved o m v f)
  unfolding moved
  moved-IsTurn o m v f new behind same mine holds theirs back fit still idles busys others =
      record {
        order = new;
        left =
            put-all (λ u w. is_behind w ≡ gone new u) t v s.stage behind
              (λ u away. h.left u ∙ same u away);
        owner =
            put-all (λ u w. is_inside w ≡ true → m ≡ some u) t v s.stage mine
              (λ u away inside. theirs u away (h.owner u inside));
        held =
            put-all (λ u w. m ≡ some u → is_inside w ≡ true) t v s.stage holds
              (λ u away own. h.held u (back u away own));
        fits =
            put-all (λ u w. Fits file w (f u)) t v s.stage fit
              (λ u away. subst (Fits file (s.stage u)) (still u away) (h.fits u));
        idle = idles;
        busy =
            put-all (λ u w. m ≡ some u → letters o ≡ whole file new ++ by u (progress file w (f u)))
              t v s.stage busys others;
      }

  pub at_stage : (v : Stage) → s.stage t ≡ v → Fits file v (s.offset t)
  at_stage v e = subst (λ w. Fits file w (s.offset t)) e (h.fits t)

  -- A step outside the loop that writes no byte of the file.
  pub apart-IsTurn :
      (o : List Piece) (v0 v : Stage)
      → s.stage t ≡ v0
      → is_inside v0 ≡ false
      → is_inside v ≡ false
      → is_behind v0 ≡ is_behind v
      → Fits file v (s.offset t)
      → letters s.out ≡ letters o
      → IsTurn file (moved o s.mutex v s.offset)
  apart-IsTurn o v0 v e before after behind fit same =
      moved-IsTurn o s.mutex v s.offset h.order (sym behind ∙ ap is_behind (sym e) ∙ h.left t)
        (λ u away. refl) (λ inside. cc) (λ own. absurd (outside own)) (λ u away own. own)
        (λ u away own. own) fit (λ u away. refl) (λ free. sym same ∙ h.idle free)
        (λ own. absurd (outside own)) (λ u away own. sym same ∙ h.busy u own)
    where
      outside : s.mutex ≡ some t → ⊥
      outside own = let inside : is_inside v0 ≡ true = ap is_inside (sym e) ∙ h.held t own in cc

  -- A step in the loop, where the thread owns the mutex.
  pub inner-IsTurn :
      (o : List Piece) (v0 v : Stage) (f : Thread → ℕ)
      → s.stage t ≡ v0
      → is_inside v0 ≡ true
      → is_inside v ≡ true
      → is_behind v0 ≡ false
      → is_behind v ≡ false
      → Fits file v (f t)
      → ((u : Thread) → u ≢ t → s.offset u ≡ f u)
      → (letters s.out ≡ whole file h.order ++ by t (progress file v0 (s.offset t))
          → letters o ≡ whole file h.order ++ by t (progress file v (f t)))
      → IsTurn file (moved o s.mutex v f)
  inner-IsTurn o v0 v f e before after behind0 behind fit still more =
      moved-IsTurn o s.mutex v f h.order (behind ∙ sym behind0 ∙ ap is_behind (sym e) ∙ h.left t)
        (λ u away. refl) (λ inside. own) (λ taken. after) (λ u away taken. taken)
        (λ u away taken. taken) fit still (λ free. absurd (none-some free own))
        (λ taken. more (
          subst (λ w. letters s.out ≡ whole file h.order ++ by t (progress file w (s.offset t))) e
            (h.busy t own)))
        (λ u away taken. absurd (away (some-eq (sym taken ∙ own))))
    where
      own : s.mutex ≡ some t
      own = h.owner t (ap is_inside e ∙ before)
