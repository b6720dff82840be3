-- ===== src/Filesystem/Loaded.antt =====
-- lab_07/main.c: what a load and a mount leave.
use os6_bmstu_iu.Common.{
  zero, suc, ◌≡◌, ◌≢◌, refl, Bool, true, false, Option, none, some, List, [], ◌∷◌, ℤ, pos, negsuc,
  ◌^◌,
}
use os6_bmstu_iu.Kernel.{Call, held}
use os6_bmstu_iu.Filesystem.{
  Answers, SuperBlock, Inode, root_mode, enomem, object, slab, line, root_inode, myfs_init,
  myfs_exit, myfs_make_inode, myfs_fill_sb,
}

-- How a load may end: undone by its unload, failed with nothing held, failed with the memory still
-- held, or failed after giving back an object that it does not have.
abbrev pub Works : ℤ × List Call → Type 0
Works r = (r.0 ≡ pos 0) × (held [] (myfs_exit (r.1)) ≡ some [])

abbrev pub Clean : ℤ × List Call → Type 0
Clean r = (r.0 ≡ enomem) × (held [] (r.1) ≡ some [])

abbrev pub Leaks : ℤ × List Call → Type 0
Leaks r = (r.0 ≢ pos 0) × (held [] (r.1) ≡ some (object ∷ slab ∷ line ∷ []))

abbrev pub Faults : ℤ × List Call → Type 0
Faults r = (r.0 ≡ enomem) × (held [] (r.1) ≡ none)

-- The end for each answer of `kmalloc`, `kmem_cache_create`, `kmem_cache_alloc` and
-- `register_filesystem`.
abbrev pub Ends : (block slab object : Bool) → (ret : ℤ) → ℤ × List Call → Type 0
Ends false s o ret r = Clean r
Ends true false o ret r = Clean r
Ends true true false ret r = Faults r
Ends true true true (pos zero) r = Works r
Ends true true true (pos (suc n)) r = Leaks r
Ends true true true (negsuc n) r = Leaks r

-- A load is undone by its unload when every call is answered. It fails with nothing held when
-- there is no memory for the block or the cache, with an object given back that was not taken when
-- there is none for the object, and with everything still held when the file system is not
-- registered.
myfs_init-Ends : (a : Answers) → Ends a.kmalloc a.cache_create a.cache_alloc a.ret (myfs_init a)
unfolding myfs_init myfs_exit
myfs_init-Ends a = by_answers a.kmalloc a.cache_create a.cache_alloc a.ret
  where
    answers : Bool → Bool → Bool → ℤ → Answers
    answers k s o ret = record { kmalloc = k; cache_create = s; cache_alloc = o; ret = ret }

    by_answers : (k s o : Bool) (ret : ℤ) → Ends k s o ret (myfs_init (answers k s o ret))
    by_answers false s o ret = (refl, refl)
    by_answers true false o ret = (refl, refl)
    by_answers true true false ret = (refl, refl)
    by_answers true true true (pos zero) = (refl, refl)
    by_answers true true true (pos (suc n)) = ((λ e. cc), refl)
    by_answers true true true (negsuc n) = ((λ e. cc), refl)

-- What a mount gives for each answer of `new_inode` and `d_make_root`.
abbrev pub Fills : (given rooted : Bool) → ℤ × SuperBlock × Option Inode × List Call → Type 0
Fills false rooted r = (r.0 ≡ enomem) × (r.2 ≡ none) × (held [] (r.3) ≡ some [])
Fills true true r =
    (r.0 ≡ pos 0)
    × (r.1.s_root ≡ true)
    × (r.2 ≡ some (record { i_mode = root_mode; i_size = r.1.s_blocksize; is_dir = true }))
    × (r.1.s_blocksize ≡ 2 ^ r.1.s_blocksize_bits)
    × (held [] (r.3) ≡ some (root_inode ∷ []))
Fills true false r = (r.0 ≡ enomem) × (r.1.s_root ≡ false) × (held [] (r.3) ≡ none)

-- A mount with an inode and a dentry succeeds: the root is a directory with mode 0755, as large as
-- a block, and held. Without an inode it fails and holds nothing. Without a dentry it fails, and
-- the inode, which `d_make_root` has put already, is put once more.
myfs_fill_sb-Fills :
    (given rooted : Bool) (sb : SuperBlock) → Fills given rooted (myfs_fill_sb given rooted sb)
unfolding myfs_fill_sb myfs_make_inode
myfs_fill_sb-Fills false rooted sb = (refl, refl, refl)
myfs_fill_sb-Fills true true sb = (refl, refl, refl, refl, refl)
myfs_fill_sb-Fills true false sb = (refl, refl, refl)
