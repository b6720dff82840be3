-- ===== src/Symbols.antt =====
-- lab_03/part2: three modules, one of which exports what the other two use. `insmod` and `rmmod` are
-- the kernel's, and a parameter.
pub mod Orders
mod Tests
use os6_bmstu_iu.Common.{
  ℕ, zero, suc, Bool, true, false, ◌≡◌, not, ◌&&◌, ◌||◌, Option, none, some, List, [], ◌∷◌, ◌++◌, ℤ,
  pos, negsuc, codes, if◌then◌else◌,
}

pub data Mod : Type 0 where
  md1 : Mod
  md2 : Mod
  md3 : Mod

-- The names of md1.c.
pub data Name : Type 0 where
  md1_data : Name
  md1_proc : Name
  md1_local : Name
  md1_noexport : Name

-- `EXPORT_SYMBOL`
abbrev pub exports : Mod → Name → Bool
exports md1 md1_data = true
exports md1 md1_proc = true
exports _ _ = false

-- The names of other modules that a module uses.
abbrev pub uses : Mod → List Name
uses md1 = []
uses md2 = md1_data ∷ md1_proc ∷ []
uses md3 = md1_data ∷ md1_proc ∷ []

-- `md1_data`, which `md1_proc`, `md1_local` and `md1_noexport` return.
abbrev pub hello : List ℕ
hello = codes "Hello, World!"

-- What is logged.
pub data Entry : Type 0 where
  started : Mod → Entry
  shows : Mod → Name → List ℕ → Entry
  unloaded : Mod → Entry

-- `md_init` of md1.c, md2.c and md3.c: its value and what it logs.
abbrev pub md1_init : ℤ × List Entry
md1_init = (pos 0, started md1 ∷ shows md1 md1_local hello ∷ shows md1 md1_noexport hello ∷ [])

abbrev pub md2_init : ℤ × List Entry
md2_init = (pos 0, started md2 ∷ shows md2 md1_data hello ∷ shows md2 md1_proc hello ∷ [])

abbrev pub md3_init : ℤ × List Entry
md3_init = (negsuc 0, started md3 ∷ shows md3 md1_data hello ∷ shows md3 md1_proc hello ∷ [])

-- `md_exit` of md1.c and md2.c; md3.c has none.
abbrev pub md1_exit : List Entry
md1_exit = unloaded md1 ∷ []

abbrev pub md2_exit : List Entry
md2_exit = unloaded md2 ∷ []

-- `module_init` and `module_exit`
unfoldable pub md_init : Mod → ℤ × List Entry
md_init md1 = md1_init
md_init md2 = md2_init
md_init md3 = md3_init

abbrev pub md_exit : Mod → Option (List Entry)
md_exit md1 = some md1_exit
md_exit md2 = some md2_exit
md_exit md3 = none

-- Which modules are loaded, and the log.
pub record Kernel : Type 0 where
  pub loaded : Mod → Bool
  pub log : List Entry

abbrev pub with_mod : Mod → Bool → (Mod → Bool) → Mod → Bool
with_mod md1 v f md1 = v
with_mod md2 v f md2 = v
with_mod md3 v f md3 = v
with_mod m v f n = f n

-- Is a name exported by a loaded module?
abbrev pub is_exported : (Mod → Bool) → Name → Bool
is_exported loaded n =
    (loaded md1 && exports md1 n)
    || ((loaded md2 && exports md2 n) || (loaded md3 && exports md3 n))

abbrev pub all_exported : (Mod → Bool) → List Name → Bool
all_exported loaded [] = true
all_exported loaded (n ∷ ns) = is_exported loaded n && all_exported loaded ns

abbrev pub is_zero : ℤ → Bool
is_zero (pos zero) = true
is_zero (pos (suc n)) = false
is_zero (negsuc n) = false

-- What is loaded behind `insmod`: a module is loaded if all that it uses is exported, and stays if its
-- init gives 0.
unfoldable pub loaded_after : Mod → (Mod → Bool) → Mod → Bool
loaded_after m loaded =
    if loaded m
    then loaded
    else if all_exported loaded (uses m) && is_zero (md_init m).0
    then with_mod m true loaded
    else loaded

-- Does a loaded module use what `m` exports?
abbrev pub uses_any : Mod → List Name → Bool
uses_any m [] = false
uses_any m (n ∷ ns) = exports m n || uses_any m ns

abbrev pub is_used : (Mod → Bool) → Mod → Bool
is_used loaded m =
    (loaded md1 && uses_any m (uses md1))
    || ((loaded md2 && uses_any m (uses md2)) || (loaded md3 && uses_any m (uses md3)))

abbrev pub is_some : Option (List Entry) → Bool
is_some none = false
is_some (some entries) = true

-- What is loaded behind `rmmod`: a module that has an exit is unloaded unless another one uses it.
unfoldable pub left_after : Mod → (Mod → Bool) → Mod → Bool
left_after m loaded =
    if not (loaded m) || is_used loaded m
    then loaded
    else if is_some (md_exit m)
    then with_mod m false loaded
    else loaded

-- `insmod` and `rmmod` of the kernel.
pub record Loader : Type 0 where
  pub insmod : Mod → Kernel → Kernel
  pub rmmod : Mod → Kernel → Kernel

-- They load and unload as documented.
pub record IsLoader (l : Loader) : Type 0 where
  pub loads : (m : Mod) (k : Kernel) → (l.insmod m k).loaded ≡ loaded_after m k.loaded
  pub leaves : (m : Mod) (k : Kernel) → (l.rmmod m k).loaded ≡ left_after m k.loaded

-- What is done with the modules, in any order.
pub data Command : Type 0 where
  load : Mod → Command
  unload : Mod → Command

unfoldable pub run : Loader → List Command → Kernel → Kernel
run l [] k = k
run l (load m ∷ cs) k = run l cs (l.insmod m k)
run l (unload m ∷ cs) k = run l cs (l.rmmod m k)
