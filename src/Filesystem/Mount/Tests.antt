-- ===== src/Filesystem/Mount/Tests.antt =====
-- A life of the module of lab_07: a load, a mount, its end, and the unload.
use os6_bmstu_iu.Common.{
  zero, suc, ◌≡◌, refl, ap, true, Option, List, [], ◌∷◌, ◌++◌, ℤ, pos, negsuc, if◌then◌else◌,
}
use os6_bmstu_iu.Kernel.{Call, gave}
use os6_bmstu_iu.Filesystem.{
  Answers, SuperBlock, Inode, root_inode, myfs_init, myfs_make_inode, myfs_fill_sb,
}
use os6_bmstu_iu.Filesystem.Mount.{
  root, error, Mounted, Killer, MountNodev, Nodev, filled, not_filled, IsMountNodev, blank,
  myfs_put_super, myfs_kill_anon_super, myfs_mount, System, load, mount, unmount, unload, Reach,
  begin, next,
}
use os6_bmstu_iu.Filesystem.Mount.Exact.{IsExact, run-IsExact}

abbrev kill_super : Killer
kill_super sb = if sb.s_root then (gave root_inode ∷ [], myfs_put_super sb) else ([], [])

abbrev after_fill : Killer → ℤ × SuperBlock × Option Inode × List Call → Mounted
after_fill kill (pos zero, sb, inode, calls) = record { entry = root sb; calls = calls; log = [] }
after_fill kill (pos (suc n), sb, inode, calls) = record {
  entry = error (pos (suc n));
  calls = calls ++ (kill sb).0;
  log = (kill sb).1;
}
after_fill kill (negsuc n, sb, inode, calls) = record {
  entry = error (negsuc n);
  calls = calls ++ (kill sb).0;
  log = (kill sb).1;
}

abbrev mount_nodev : MountNodev
mount_nodev fill kill = after_fill kill (fill blank)

mount_nodev-law : IsMountNodev mount_nodev
mount_nodev-law fill kill = by_result (fill blank) refl
  where
    by_result :
        (r : ℤ × SuperBlock × Option Inode × List Call)
        → fill blank ≡ r
        → Nodev fill kill (after_fill kill (fill blank))
    by_result (pos zero, sb, inode, calls) e = filled (ap (λ x. x.0) e) (rw e)
    by_result (pos (suc n), sb, inode, calls) e =
        not_filled (λ z. let same = ap (λ x. x.0) e in cc) (rw e)
    by_result (negsuc n, sb, inode, calls) e =
        not_filled (λ z. let same = ap (λ x. x.0) e in cc) (rw e)

abbrev all_given : Answers
all_given = record { kmalloc = true; cache_create = true; cache_alloc = true; ret = pos 0 }

abbrev filled_block : SuperBlock
filled_block = record {
  s_blocksize = 4096;
  s_blocksize_bits = 12;
  s_magic = 0xdeadbeef;
  s_root = true;
}

life : (s : System) × Reach kill_super s
unfolding myfs_init myfs_mount myfs_kill_anon_super myfs_fill_sb myfs_make_inode
life = (
  _,
  next
      (next
        (next (next begin (load all_given refl)) (mount mount_nodev true true mount_nodev-law refl))
        (unmount [] filled_block [] refl))
      (unload refl refl),
)

run-IsExact_example : IsExact (life.0)
unfolding life myfs_init myfs_mount myfs_kill_anon_super myfs_fill_sb myfs_make_inode
run-IsExact_example =
    run-IsExact kill_super (λ sb. refl) (life.0) (life.1)
      ((λ given. refl), ((λ k c. (refl, refl)), tt))
