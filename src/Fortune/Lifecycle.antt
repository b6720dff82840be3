-- ===== src/Fortune/Lifecycle.antt =====
-- lab_04/part2: the load and unload of fortune.c and of seqfile.c.
pub mod Held
use os6_bmstu_iu.Common.{
  ℕ, ◌≡◌, ◌≢◌, refl, ap, sym, subst, Bool, true, false, some, inl, inr, ◌⊎◌, List, [], ◌∷◌, ◌++◌, ℤ,
  pos, negsuc, codes, if◌then◌else◌,
}
use os6_bmstu_iu.Kernel.{Resource, memory, entry, Call, took, gave, held, has}

-- Which of the calls of a load the kernel answers with a resource, in their order: `vmalloc`,
-- `proc_mkdir`, `proc_create` and `proc_symlink`.
pub record Answers : Type 0 where
  pub vmalloc : Bool
  pub mkdir : Bool
  pub create : Bool
  pub symlink : Bool

-- The pointers of the module, as being other than NULL, the indices, the path behind the link, and
-- the calls made so far.
pub record Module : Type 0 where
  pub cookie_buffer : Bool
  pub fortune_dir : Bool
  pub fortune_file : Bool
  pub fortune_symlink : Bool
  pub read_ind : ℕ
  pub write_ind : ℕ
  pub target : List ℕ
  pub calls : List Call

abbrev pub unloaded : Module
unloaded = record {
  cookie_buffer = false;
  fortune_dir = false;
  fortune_file = false;
  fortune_symlink = false;
  read_ind = 0;
  write_ind = 0;
  target = [];
  calls = [];
}

abbrev pub dir_name : List ℕ
dir_name = codes "fortune_dir"

abbrev pub file_name : List ℕ
file_name = codes "fortune_file"

abbrev pub link_name : List ℕ
link_name = codes "fortune_symlink"

-- The block behind `cookieBuffer`, or `buffer` in seqfile.c.
abbrev pub page : Resource
page = memory (codes "page")

-- `-ENOMEM`
abbrev pub enomem : ℤ
enomem = negsuc 11

abbrev call : Call → Module → Module
call c m = record m { calls = m.calls ++ (c ∷ []) }

-- A `remove_proc_entry` or `vfree` behind its test: `vfree(NULL)` does nothing.
abbrev give : Bool → Resource → Module → Module
give there r m = if there then call (gave r) m else m

-- `p == NULL`
abbrev is_null : Bool → Bool
is_null true = false
is_null false = true

-- `cleanUpFortune`
unfoldable pub clean_up : Module → Module
clean_up m =
    let m1 = give m.fortune_symlink (entry link_name) m in
    let m2 = give m.fortune_file (entry file_name) m1 in
    let m3 = give m.fortune_dir (entry dir_name) m2 in give m.cookie_buffer page m3

-- `initFortune`, where `path` is FORTUNE_PATH. All entries are made in the root of /proc.
unfoldable pub init_fortune : (path : List ℕ) → Answers → Module → ℤ × Module
unfolding clean_up
init_fortune path a m =
    if is_null a.vmalloc
    then (enomem, m)
    else let m1 = call (took page) (record m { cookie_buffer = true }) in
      if is_null a.mkdir
      then (enomem, clean_up m1)
      else let m2 = call (took (entry dir_name)) (record m1 { fortune_dir = true }) in
        if is_null a.create
        then (enomem, clean_up m2)
        else let m3 = call (took (entry file_name)) (record m2 { fortune_file = true }) in
          if is_null a.symlink
          then (enomem, clean_up m3)
          else let m4 =
              call (took (entry link_name)) (record m3 { fortune_symlink = true; target = path }) in
            (pos 0, record m4 { read_ind = 0; write_ind = 0 })

-- FORTUNE_PATH of fortune.c and of seqfile.c.
abbrev pub fortune_path : List ℕ
fortune_path = codes "fortune_file"

abbrev pub seq_path : List ℕ
seq_path = codes "fortune_dir/fortune_file"

-- `initFortune` of seqfile.c is the same code with its own path.
unfoldable pub seq_init : Answers → Module → ℤ × Module
unfolding init_fortune
seq_init a m = init_fortune seq_path a m

-- `exitFortune`
unfoldable pub exit_fortune : Module → Module
unfolding clean_up
exit_fortune m = clean_up m

-- `cleanUpFortune` and `exitFortune` of seqfile.c.
unfoldable pub seq_clean_up : Module → Module
unfolding clean_up
seq_clean_up m = clean_up m

unfoldable pub seq_exit : Module → Module
unfolding seq_clean_up
seq_exit m = seq_clean_up m
