-- ===== src/Tasks/Tests.antt =====
-- lab_03/part1/md.c: a ring of three tasks.
use os6_bmstu_iu.Common.{
  ℕ, zero, suc, ◌+◌, ◌<◌, ◌≡◌, ◌≢◌, refl, some, List, [], ◌∷◌, ◌++◌, codes, pos, arith, ◌==◌,
  if◌then◌else◌,
}
use os6_bmstu_iu.Tasks.{Tasks, Shown, Entry, loaded, this, md_init}
use os6_bmstu_iu.Tasks.Ring.{place, IsRing, IsShown, IsLogged, md_init-IsLogged}

abbrev three : Tasks
three = record {
  at = λ a. record {
    comm = codes "t";
    pid = a;
    state = pos 0;
    static_prio = 120;
    parent = 0;
    next = if a == 2 then 0 else a + 1;
  };
  init_task = 0;
  current = 2;
}

three-IsRing : IsRing three 3
three-IsRing = record { some_task = omega arith; back = refl; not_before = apart }
  where
    apart : (i : ℕ) → 0 < i → i < 3 → place three i ≢ 0
    apart zero more less = absurd (omega arith)
    apart (suc zero) more less = λ e. omega arith
    apart (suc (suc zero)) more less = λ e. omega arith
    apart (suc (suc (suc i))) more less = absurd (omega arith)

md_init-IsLogged_example :
    (entries : List Entry) × (last : Shown) × (md_init 3 three
      ≡ some (loaded ∷ (entries ++ (this last ∷ []))))
    × IsLogged three 3 entries
    × IsShown three 2 last
md_init-IsLogged_example = md_init-IsLogged three 3 three-IsRing
