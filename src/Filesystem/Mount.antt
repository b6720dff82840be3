-- ===== src/Filesystem/Mount.antt =====
-- lab_07/main.c: mounts and unmounts, and the life of the module around them. mount_nodev and
-- kill_anon_super are the kernel's.
pub mod Held
pub mod Exact
mod Tests
use os6_bmstu_iu.Common.{
  ℕ, ◌+◌, ◌%◌, ◌^◌, ◌≡◌, ◌≢◌, Bool, true, false, Option, none, some, List, [], ◌∷◌, ◌++◌, ℤ, pos,
  if◌then◌else◌,
}
use os6_bmstu_iu.Kernel.{Call, gave}
use os6_bmstu_iu.Filesystem.{
  Answers, SuperBlock, Inode, is_zero, root_inode, myfs_init, myfs_exit, myfs_fill_sb,
}

-- `co`: what it stores at the address `p`, and the new `sco`.
unfoldable pub co : (p sco : ℕ) → ℕ × ℕ
co p sco = (p % 2 ^ 32, sco + 1)

-- `struct dentry *`: the root of a mounted file system, or an error.
pub data Dentry : Type 0 where
  root : SuperBlock → Dentry
  error : ℤ → Dentry

-- What the module logs of a mount and of its end.
pub data Message : Type 0 where
  mounted mounting_failed killed destroyed : Message

-- A super block that the kernel has just made.
abbrev pub blank : SuperBlock
blank = record { s_blocksize = 0; s_blocksize_bits = 0; s_magic = 0; s_root = false }

abbrev pub Filler : Type 0
Filler = SuperBlock → ℤ × SuperBlock × Option Inode × List Call

-- What a call that ends a super block does: its calls, and what it logs.
abbrev pub Killer : Type 0
Killer = SuperBlock → List Call × List Message

-- `myfs_put_super`, which the kernel calls on a super block that has a root.
unfoldable pub myfs_put_super : SuperBlock → List Message
myfs_put_super sb = destroyed ∷ []

-- `myfs_kill_anon_super`
unfoldable pub myfs_kill_anon_super : Killer → Killer
myfs_kill_anon_super kill_anon_super sb = let r = kill_anon_super sb in (r.0, killed ∷ r.1)

-- `kill_anon_super` puts the root and calls `put_super`, if the super block has a root.
abbrev pub IsKillAnonSuper : Killer → Type 0
IsKillAnonSuper kill =
    (sb : SuperBlock)
    → kill sb ≡ (if sb.s_root then (gave root_inode ∷ [], myfs_put_super sb) else ([], []))

-- What a mount gives: the dentry, the calls and the log.
pub record Mounted : Type 0 where
  pub entry : Dentry
  pub calls : List Call
  pub log : List Message

abbrev pub MountNodev : Type 0
MountNodev = Filler → Killer → Mounted

-- What `mount_nodev` may give: an error when there is no super block; else it has one filled, and
-- gives its root, or the error of the filler after the super block has been killed.
pub data Nodev (fill : Filler) (kill : Killer) (m : Mounted) : Type 0 where
  no_super : (e : ℤ) → m ≡ record { entry = error e; calls = []; log = [] } → Nodev fill kill m
  filled :
      (fill blank).0 ≡ pos 0
      → m ≡ record { entry = root ((fill blank).1); calls = (fill blank).3; log = [] }
      → Nodev fill kill m
  not_filled :
      (fill blank).0 ≢ pos 0
      → m ≡ record {
        entry = error ((fill blank).0);
        calls = (fill blank).3 ++ (kill ((fill blank).1)).0;
        log = (kill ((fill blank).1)).1;
      }
      → Nodev fill kill m

abbrev pub IsMountNodev : MountNodev → Type 0
IsMountNodev mount_nodev = (fill : Filler) (kill : Killer) → Nodev fill kill (mount_nodev fill kill)

-- `IS_ERR`
abbrev pub is_err : Dentry → Bool
is_err (root sb) = false
is_err (error e) = true

-- `myfs_mount`, where `given` and `rooted` are the answers of `new_inode` and `d_make_root`.
unfoldable pub myfs_mount : MountNodev → Killer → (given rooted : Bool) → Mounted
unfolding myfs_kill_anon_super
myfs_mount mount_nodev kill_anon_super given rooted =
    let m = mount_nodev (myfs_fill_sb given rooted) (myfs_kill_anon_super kill_anon_super) in
    record m { log = m.log ++ ((if is_err m.entry then mounting_failed else mounted) ∷ []) }

-- The module in the kernel: the calls that it has made, the super blocks in use, whether it is
-- loaded, and its log.
pub record System : Type 0 where
  pub calls : List Call
  pub live : List SuperBlock
  pub loaded : Bool
  pub log : List Message

abbrev pub unloaded : System
unloaded = record { calls = []; live = []; loaded = false; log = [] }

-- A super block more, if the mount gave one.
abbrev pub with_root : Dentry → List SuperBlock → List SuperBlock
with_root (root sb) live = sb ∷ live
with_root (error e) live = live

-- Users load and unload the module, mount and unmount, in any order; the kernel lets nobody unload
-- a module of which a file system is mounted.
module _ (kill_anon_super : Killer) where
  pub data Step (s : System) : System → Type 0 where
    load :
        (a : Answers)
        → s.loaded ≡ false
        → Step s
            (record s { calls = s.calls ++ (myfs_init a).1; loaded = is_zero ((myfs_init a).0) })
    mount :
        (mount_nodev : MountNodev) (given rooted : Bool)
        → IsMountNodev mount_nodev
        → s.loaded ≡ true
        → Step s (
            let m = myfs_mount mount_nodev kill_anon_super given rooted in
            record s {
              calls = s.calls ++ m.calls;
              live = with_root m.entry s.live;
              log = s.log ++ m.log;
            })
    unmount :
        (before : List SuperBlock) (sb : SuperBlock) (after : List SuperBlock)
        → s.live ≡ before ++ (sb ∷ after)
        → Step s (
            let k = myfs_kill_anon_super kill_anon_super sb in
            record s { calls = s.calls ++ k.0; live = before ++ after; log = s.log ++ k.1 })
    unload :
        s.loaded ≡ true
        → s.live ≡ []
        → Step s (record s { calls = myfs_exit s.calls; loaded = false })

  pub data Reach : System → Type 0 where
    begin : Reach unloaded
    next : {s s' : System} → Reach s → Step s s' → Reach s'
