-- ===== src/Fortune/Lifecycle/Held.antt =====
-- lab_04/part2: what a load and an unload take and give back, and what the symbolic links name.
use os6_bmstu_iu.Common.{
  ℕ, ◌≡◌, ◌≢◌, refl, ap, sym, subst, Bool, true, false, some, inl, inr, ◌⊎◌, List, [], ◌∷◌, ℤ, pos,
  if◌then◌else◌,
}
use os6_bmstu_iu.Kernel.{Resource, entry, took, held, has}
use os6_bmstu_iu.Fortune.Lifecycle.{
  Answers, Module, unloaded, dir_name, file_name, link_name, page, enomem, clean_up, init_fortune,
  fortune_path, seq_path, seq_init, exit_fortune, seq_clean_up, seq_exit,
}

abbrev answers : Bool → Bool → Bool → Bool → Answers
answers v d f l = record { vmalloc = v; mkdir = d; create = f; symlink = l }

-- The module after a load that succeeded.
abbrev up : List ℕ → Module
up path = record {
  cookie_buffer = true;
  fortune_dir = true;
  fortune_file = true;
  fortune_symlink = true;
  read_ind = 0;
  write_ind = 0;
  target = path;
  calls = took page ∷ took (entry dir_name) ∷ took (entry file_name) ∷ took (entry link_name) ∷ [];
}

pos_ne : enomem ≢ pos 0
pos_ne e = cc

up-eq :
    (path : List ℕ) (a : Answers) (m : Module)
    → init_fortune path a unloaded ≡ (pos 0, m)
    → m ≡ up path
unfolding init_fortune clean_up
up-eq path a m e = by_answers a.vmalloc a.mkdir a.create a.symlink e
  where
    by_answers :
        (v d f l : Bool) → init_fortune path (answers v d f l) unloaded ≡ (pos 0, m) → m ≡ up path
    by_answers false d f l e = absurd (pos_ne (ap (λ r. r.0) e))
    by_answers true false f l e = absurd (pos_ne (ap (λ r. r.0) e))
    by_answers true true false l e = absurd (pos_ne (ap (λ r. r.0) e))
    by_answers true true true false e = absurd (pos_ne (ap (λ r. r.0) e))
    by_answers true true true true e = ap (λ r. r.1) (sym e)

-- What a load returns and leaves, when the kernel answers every call and when it does not.
abbrev pub Loads : (path : List ℕ) → Answers → ℤ × Module → Type 0
Loads path a r =
    ((r.0 ≡ pos 0) × (all a ≡ true) × (held [] (r.1.calls) ≡ some loaded))
    ⊎ ((r.0 ≡ enomem) × (all a ≡ false) × (held [] (r.1.calls) ≡ some []))
  where
    loaded : List Resource
    loaded = entry link_name ∷ entry file_name ∷ entry dir_name ∷ page ∷ []

    all : Answers → Bool
    all a =
        if a.vmalloc
        then (if a.mkdir then (if a.create then a.symlink else false) else false)
        else false

-- A load either succeeds and holds the page and the three entries, or fails and holds nothing. In
-- no case is something given back that was not held.
pub init_fortune-Loads : (path : List ℕ) (a : Answers) → Loads path a (init_fortune path a unloaded)
unfolding init_fortune clean_up
init_fortune-Loads path a = by_answers a.vmalloc a.mkdir a.create a.symlink
  where
    by_answers :
        (v d f l : Bool)
        → Loads path (answers v d f l) (init_fortune path (answers v d f l) unloaded)
    by_answers false d f l = inr (refl, refl, refl)
    by_answers true false f l = inr (refl, refl, refl)
    by_answers true true false l = inr (refl, refl, refl)
    by_answers true true true false = inr (refl, refl, refl)
    by_answers true true true true = inl (refl, refl, refl)

-- After a load that succeeded, an unload gives back exactly what is held.
pub exit_fortune-held :
    (path : List ℕ) (a : Answers) (m : Module)
    → init_fortune path a unloaded ≡ (pos 0, m)
    → held [] ((exit_fortune m).calls) ≡ some []
unfolding init_fortune exit_fortune clean_up
exit_fortune-held path a m loaded =
    subst (λ n. held [] ((exit_fortune n).calls) ≡ some []) (sym (up-eq path a m loaded)) refl

-- Is the path behind the link an entry that the module holds?
abbrev pub Links : Module → Bool → Type 0
Links m found = (l : List Resource) × (held [] m.calls ≡ some l) × (has (entry m.target) l ≡ found)

-- After a load that succeeded, the link of fortune.c names an entry that the module made.
pub init_fortune-link :
    (a : Answers) (m : Module) → init_fortune fortune_path a unloaded ≡ (pos 0, m) → Links m true
unfolding init_fortune clean_up
init_fortune-link a m loaded =
    subst (λ n. Links n true) (sym (up-eq fortune_path a m loaded)) (_, refl, refl)

-- After a load of seqfile.c that succeeded, its link names no entry that the module made.
pub seq_init-link : (a : Answers) (m : Module) → seq_init a unloaded ≡ (pos 0, m) → Links m false
unfolding seq_init init_fortune clean_up
seq_init-link a m loaded =
    subst (λ n. Links n false) (sym (up-eq seq_path a m loaded)) (_, refl, refl)

-- After a load of seqfile.c that succeeded, an unload gives back exactly what is held.
pub seq_exit-held :
    (a : Answers) (m : Module)
    → seq_init a unloaded ≡ (pos 0, m)
    → held [] ((seq_exit m).calls) ≡ some []
unfolding seq_init seq_exit seq_clean_up exit_fortune
seq_exit-held a m loaded = exit_fortune-held seq_path a m loaded
