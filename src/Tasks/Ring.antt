-- ===== src/Tasks/Ring.antt =====
-- lab_03/part1/md.c: every task of the ring is logged once.
use os6_bmstu_iu.Common.{
  ℕ, zero, suc, ◌+◌, ◌-◌, ◌<◌, ◌≡◌, ◌≢◌, refl, ap, ◌∙◌, subst, arith, get_elem?, none, some, List,
  [], ◌∷◌, ◌++◌, length, ==_ne, ==_refl,
}
use os6_bmstu_iu.Tasks.{Tasks, Shown, Entry, loaded, task, this, shown, walk, md_init}

-- From a task over others back to `init_task`.
abbrev pub Chain : Tasks → ℕ → List ℕ → Type 0
Chain k a [] = (k.at a).next ≡ k.init_task
Chain k a (b ∷ bs) = ((k.at a).next ≡ b) × (b ≢ k.init_task) × Chain k b bs

abbrev pub tasks : Tasks → List ℕ → List Entry
tasks k [] = []
tasks k (a ∷ rest) = task (shown k a) ∷ tasks k rest

walk-Chain :
    (k : Tasks) (a : ℕ) (bs : List ℕ)
    → Chain k a bs
    → walk (suc (length bs)) k a ≡ some (tasks k (a ∷ bs))
unfolding walk
walk-Chain k a [] last = rw (last, ==_refl k.init_task) refl
walk-Chain k a (b ∷ bs) (to, other, rest) =
    rw (to, ==_ne b k.init_task other, walk-Chain k b bs rest) refl

-- The task `i` places behind `init_task`.
abbrev pub place : Tasks → ℕ → ℕ
place k zero = k.init_task
place k (suc i) = (k.at (place k i)).next

-- `size` tasks are a ring: the last one is followed by `init_task`, and none before it is.
pub record IsRing (k : Tasks) (size : ℕ) : Type 0 where
  pub some_task : 0 < size
  pub back : place k size ≡ k.init_task
  pub not_before : (i : ℕ) → 0 < i → i < size → place k i ≢ k.init_task

-- What is to be logged of a task: its fields, and the name and the pid of its parent.
pub record IsShown (k : Tasks) (a : ℕ) (s : Shown) : Type 0 where
  pub comm : s.comm ≡ (k.at a).comm
  pub pid : s.pid ≡ (k.at a).pid
  pub state : s.state ≡ (k.at a).state
  pub static_prio : s.static_prio ≡ (k.at a).static_prio
  pub parent_comm : s.parent_comm ≡ (k.at (k.at a).parent).comm
  pub parent_pid : s.parent_pid ≡ (k.at (k.at a).parent).pid

shown-IsShown : (k : Tasks) (a : ℕ) → IsShown k a (shown k a)
shown-IsShown k a = record {
  comm = refl;
  pid = refl;
  state = refl;
  static_prio = refl;
  parent_comm = refl;
  parent_pid = refl;
}

-- `n` places from the place `i` on.
places : Tasks → (i n : ℕ) → List ℕ
places k i zero = []
places k i (suc n) = place k i ∷ places k (suc i) n

length-tasks : (k : Tasks) (i n : ℕ) → length (tasks k (places k i n)) ≡ n
unfolding places
length-tasks k i zero = refl
length-tasks k i (suc n) = ap suc (length-tasks k (suc i) n)

get-tasks :
    (k : Tasks) (i n j p : ℕ)
    → j < n
    → i + j ≡ p
    → get_elem? (tasks k (places k i n)) j ≡ some (task (shown k (place k p)))
unfolding places
get-tasks k i zero j p lt e = absurd (omega arith)
get-tasks k i (suc n) zero p lt e =
    let here : i ≡ p = omega arith in ap (λ x. some (task (shown k (place k x)))) here
get-tasks k i (suc n) (suc j) p lt e = get-tasks k (suc i) n j p (omega arith) (omega arith)

places-Chain :
    (k : Tasks) (size i n : ℕ)
    → IsRing k size
    → i + suc n ≡ size
    → Chain k (place k i) (places k (suc i) n)
unfolding places
places-Chain k size i zero ring e =
    let end : suc i ≡ size = omega arith in ap (place k) end ∙ ring.back
places-Chain k size i (suc n) ring e = (
  refl,
  ring.not_before (suc i) (omega arith) (omega arith),
  places-Chain k size (suc i) n ring (omega arith),
)

-- Two places of the ring are not one task.
place_shift :
    (k : Tasks) (i j m a b : ℕ)
    → place k i ≡ place k j
    → a ≡ m + i
    → b ≡ m + j
    → place k a ≡ place k b
place_shift k i j zero a b e ea eb =
    let at_i : a ≡ i = omega arith in
    let at_j : j ≡ b = omega arith in ap (place k) at_i ∙ e ∙ ap (place k) at_j
place_shift k i j (suc m) zero b e ea eb = absurd (omega arith)
place_shift k i j (suc m) (suc a) zero e ea eb = absurd (omega arith)
place_shift k i j (suc m) (suc a) (suc b) e ea eb =
    ap (λ x. (k.at x).next) (place_shift k i j m a b e (omega arith) (omega arith))

place_ne : (k : Tasks) (size i j : ℕ) → IsRing k size → i < j → j < size → place k i ≢ place k j
place_ne k size i j ring lt lt' e =
    ring.not_before ((size - j) + i) (omega arith) (omega arith)
      (place_shift k i j (size - j) ((size - j) + i) size e refl (omega arith) ∙ ring.back)

md_init-Chain :
    (k : Tasks) (bs : List ℕ)
    → Chain k k.init_task bs
    → md_init (suc (length bs)) k
      ≡ some (loaded ∷ (tasks k (k.init_task ∷ bs) ++ (this (shown k k.current) ∷ [])))
unfolding md_init
md_init-Chain k bs ring = rw (walk-Chain k k.init_task bs ring) refl

length-places : (k : Tasks) (i n : ℕ) → length (places k i n) ≡ n
unfolding places
length-places k i zero = refl
length-places k i (suc n) = ap suc (length-places k (suc i) n)

-- The entries that are logged for `size` tasks, one for each place of the ring.
pub record IsLogged (k : Tasks) (size : ℕ) (entries : List Entry) : Type 0 where
  pub each : length entries ≡ size
  pub at :
      (i : ℕ)
      → i < size
      → (s : Shown) × (get_elem? entries i ≡ some (task s)) × IsShown k (place k i) s
  pub apart : (i j : ℕ) → i < j → j < size → place k i ≢ place k j

-- If `size` tasks are a ring through init_task, `size` rounds are enough, and the module logs first
-- that it is loaded, then one entry for each task of the ring, in the order of the ring from init_task
-- on, no task twice, each with its fields and the name and pid of its parent, and last the current task
-- in the same way.
pub md_init-IsLogged :
    (k : Tasks) (size : ℕ)
    → IsRing k size
    → (entries : List Entry) × (last : Shown) × (md_init size k
        ≡ some (loaded ∷ (entries ++ (this last ∷ []))))
      × IsLogged k size entries
      × IsShown k k.current last
unfolding places
md_init-IsLogged k zero ring = absurd (omega (arith, ring.some_task))
md_init-IsLogged k (suc n) ring =
    let rest = places k 1 n in
    let logged = md_init-Chain k rest (places-Chain k (suc n) 0 n ring (omega arith)) in
    (
      tasks k (places k 0 (suc n)),
      shown k k.current,
      subst
          (λ m.
            md_init (suc m) k
            ≡ some (loaded ∷ (tasks k (k.init_task ∷ rest) ++ (this (shown k k.current) ∷ []))))
          (length-places k 1 n) logged,
      record {
        each = length-tasks k 0 (suc n);
        at = λ i lt. (
          shown k (place k i),
          get-tasks k 0 (suc n) i i lt (omega arith),
          shown-IsShown k (place k i),
        );
        apart = λ i j lt lt'. place_ne k (suc n) i j ring lt lt';
      },
      shown-IsShown k k.current,
    )

-- From a task that the ring does not come back from, no number of rounds is enough.
pub walk-lost : (k : Tasks) (n a : ℕ) → ((b : ℕ) → (k.at b).next ≢ k.init_task) → walk n k a ≡ none
unfolding walk
walk-lost k zero a away = refl
walk-lost k (suc n) a away =
    rw (==_ne ((k.at a).next) k.init_task (away a), walk-lost k n ((k.at a).next) away) refl
