-- ===== src/Filesystem.antt =====
-- lab_07/main.c: a module that registers a file system, and the super block of a mount.
pub mod Loaded
pub mod Mount
use os6_bmstu_iu.Common.{
  ℕ, zero, suc, ◌+◌, ◌≡◌, Bool, true, false, not, Option, none, some, List, [], ◌∷◌, ◌++◌, ℤ, pos,
  negsuc, codes, if◌then◌else◌,
}
use os6_bmstu_iu.Kernel.{Resource, memory, cache, filesystem, Call, took, gave}

-- What the kernel answers to the load: whether `kmalloc`, `kmem_cache_create` and
-- `kmem_cache_alloc` give a pointer, and the value of `register_filesystem`.
pub record Answers : Type 0 where
  pub kmalloc : Bool
  pub cache_create : Bool
  pub cache_alloc : Bool
  pub ret : ℤ

-- `line`, `cache`, `*line` and `myfs_type`
abbrev pub line : Resource
line = memory (codes "line")

abbrev pub slab : Resource
slab = cache (codes "a23fs_slab")

abbrev pub object : Resource
object = memory (codes "*line")

abbrev pub myfs_type : Resource
myfs_type = filesystem (codes "a23fs")

-- `-ENOMEM`
abbrev pub enomem : ℤ
enomem = negsuc 11

abbrev pub is_zero : ℤ → Bool
is_zero (pos zero) = true
is_zero _ = false

-- `myfs_init`: its value and its calls. A `kmem_cache_free` of NULL is a call that gives back an
-- object that was not taken.
unfoldable pub myfs_init : Answers → ℤ × List Call
myfs_init a =
    if not a.kmalloc
    then (enomem, [])
    else if not a.cache_create
    then (enomem, took line ∷ gave line ∷ [])
    else if not a.cache_alloc
    then (enomem, took line ∷ took slab ∷ gave object ∷ gave slab ∷ gave line ∷ [])
    else if not (is_zero a.ret)
    then (a.ret, took line ∷ took slab ∷ took object ∷ [])
    else (pos 0, took line ∷ took slab ∷ took object ∷ took myfs_type ∷ [])

-- `myfs_exit`, after the calls that were made before it.
unfoldable pub myfs_exit : List Call → List Call
myfs_exit calls = calls ++ (gave object ∷ gave slab ∷ gave line ∷ gave myfs_type ∷ [])

-- The fields of the super block that a mount sets.
pub record SuperBlock : Type 0 where
  pub s_blocksize : ℕ
  pub s_blocksize_bits : ℕ
  pub s_magic : ℕ
  pub s_root : Bool

-- `S_IFDIR | 0755`, the mode of the root.
abbrev pub root_mode : ℕ
root_mode = 0x41ed

-- The inode of the root: `i_mode`, `i_size` and whether it has the operations of a directory.
pub record Inode : Type 0 where
  pub i_mode : ℕ
  pub i_size : ℕ
  pub is_dir : Bool

abbrev pub root_inode : Resource
root_inode = memory (codes "root")

-- `myfs_make_inode`, where `given` says whether `new_inode` gives an inode.
unfoldable pub myfs_make_inode : (given : Bool) → (mode : ℕ) → Option Inode
myfs_make_inode given mode =
    if given then some (record { i_mode = mode; i_size = 4096; is_dir = false }) else none

-- `myfs_fill_sb`: its value, the super block, the inode and the calls. `rooted` says whether
-- `d_make_root` gives a dentry; when it does not, it has put the inode itself.
unfoldable pub myfs_fill_sb :
    (given rooted : Bool) → SuperBlock → ℤ × SuperBlock × Option Inode × List Call
unfolding myfs_make_inode
myfs_fill_sb given rooted sb =
    let sb = record sb { s_blocksize = 4096; s_blocksize_bits = 12; s_magic = 0xdeadbeef } in
    elim (myfs_make_inode given root_mode) [
      | none ↦ (enomem, sb, none, [])
      | some root ↦
          let root = record root { is_dir = true } in
          if rooted
          then (pos 0, record sb { s_root = true }, some root, took root_inode ∷ [])
          else (
            enomem,
            record sb { s_root = false },
            some root,
            took root_inode ∷ gave root_inode ∷ gave root_inode ∷ [],
          )
    ]
