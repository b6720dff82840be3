-- ===== src/Alphabet/Threads.antt =====
-- lab_05/src: a value for each of the two threads, after one of them has changed.
use os6_bmstu_iu.Common.{◌≡◌, ◌≢◌, refl}
use os6_bmstu_iu.Alphabet.{Thread, first, second, put}

module _ {ℓ} {A : Type ℓ} where
  -- A family that holds for the thread that moves and for the other one.
  pub put-all {κ} :
      (P : Thread → A → Type κ) (t : Thread) (v : A) (g : Thread → A)
      → P t v
      → ((u : Thread) → u ≢ t → P u (g u))
      → (u : Thread) → P u (put t v g u)
  put-all P first v g mine other first = mine
  put-all P first v g mine other second = other second (λ e. cc)
  put-all P second v g mine other first = other first (λ e. cc)
  put-all P second v g mine other second = mine

  pub put-same : (t : Thread) (v : A) (g : Thread → A) → put t v g t ≡ v
  put-same first v g = refl
  put-same second v g = refl

  pub put-other : (t : Thread) (v : A) (g : Thread → A) (u : Thread) → u ≢ t → put t v g u ≡ g u
  put-other first v g first away = absurd (away refl)
  put-other first v g second away = refl
  put-other second v g first away = refl
  put-other second v g second away = absurd (away refl)
