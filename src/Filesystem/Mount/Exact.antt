-- ===== src/Filesystem/Mount/Exact.antt =====
-- lab_07/main.c: what the module holds is what it needs for the mounts there are.

use os6_bmstu_iu.Common.{
  ◌≡◌, refl, ap, sym, ◌∙◌, subst, Bool, true, false, some, List, [], ◌∷◌, ◌++◌, ◌>>=◌,
}
use os6_bmstu_iu.Kernel.{Resource, gave, held}
use os6_bmstu_iu.Filesystem.{
  Answers, SuperBlock, is_zero, line, slab, object, myfs_type, root_inode, myfs_init, myfs_exit,
  myfs_make_inode, myfs_fill_sb,
}
use os6_bmstu_iu.Filesystem.Mount.{
  Mounted, Killer, MountNodev, Nodev, no_super, filled, not_filled, IsMountNodev, IsKillAnonSuper,
  myfs_kill_anon_super, myfs_mount, System, with_root, load, mount, unmount, unload, Reach, begin,
  next,
}
use os6_bmstu_iu.Filesystem.Mount.Held.{
  while_loaded, roots, AreFilled, IsLucky, myfs_init-held, without-root, AreFilled-without,
  held-more, append-cons-ne_nil,
}

pub record IsExact (s : System) : Type 0 where
  pub holds : held [] s.calls ≡ some (roots s.live ++ while_loaded s.loaded)
  pub none_left : s.loaded ≡ false → s.live ≡ []
  pub are_filled : AreFilled s.live

module _ (kill : Killer) where
  abbrev pub AreLucky : {s : System} → Reach kill s → Type 0
  AreLucky begin = Unit {0}
  AreLucky (next past (load a idle)) = IsLucky a × AreLucky past
  AreLucky (next past (mount mount_nodev given rooted law up)) =
      (given ≡ true → rooted ≡ true) × AreLucky past
  AreLucky (next past (unmount before sb after at)) = AreLucky past
  AreLucky (next past (unload up none_left)) = AreLucky past

-- What a mount adds to what is held before it.
record Adds (r : List Resource) (m : Mounted) (live : List SuperBlock) : Type 0 where
  taken : held (roots live ++ r) m.calls ≡ some (roots (with_root m.entry live) ++ r)
  filled_ones : AreFilled (with_root m.entry live)

module _ (kill : Killer) (law : IsKillAnonSuper kill) where
  Nodev-Adds :
      (given rooted : Bool) (m : Mounted) (r : List Resource) (live : List SuperBlock)
      → (given ≡ true → rooted ≡ true)
      → AreFilled live
      → Nodev (myfs_fill_sb given rooted) (myfs_kill_anon_super kill) m
      → Adds r m live
  unfolding myfs_fill_sb myfs_make_inode myfs_kill_anon_super
  Nodev-Adds given rooted m r live lucky good (no_super e same) =
      subst (λ m. Adds r m live) (sym same) (record { taken = refl; filled_ones = good })
  Nodev-Adds false rooted m r live lucky good (filled z same) = cc
  Nodev-Adds true false m r live lucky good (filled z same) = cc
  Nodev-Adds true true m r live lucky good (filled z same) =
      subst (λ m. Adds r m live) (sym same)
        (record {
          taken = refl;
          filled_ones = (record { magic = refl; size = refl; rooted = refl }, good);
        })
  Nodev-Adds false rooted m r live lucky good (not_filled nz same) =
      subst (λ m. Adds r m live) (sym same) (record { taken = rw (law _) refl; filled_ones = good })
  Nodev-Adds true false m r live lucky good (not_filled nz same) = let missing = lucky refl in cc
  Nodev-Adds true true m r live lucky good (not_filled nz same) = absurd (nz refl)

module _ (kill : Killer) (law : IsKillAnonSuper kill) where
  load-IsExact :
      (s : System) (a : Answers)
      → IsExact s
      → s.loaded ≡ false
      → IsLucky a
      → IsExact
          (record s { calls = s.calls ++ (myfs_init a).1; loaded = is_zero ((myfs_init a).0) })
  load-IsExact s a h idle lucky =
      let empty = h.none_left idle in
      let nothing : held [] s.calls ≡ some [] =
        h.holds
        ∙ ap (λ l. some (roots l ++ while_loaded s.loaded)) empty
        ∙ ap (λ b. some (while_loaded b)) idle in
      record {
        holds =
            held-more s.calls ((myfs_init a).1) [] nothing
            ∙ myfs_init-held a lucky
            ∙ ap (λ l. some (roots l ++ while_loaded (is_zero ((myfs_init a).0)))) (sym empty);
        none_left = λ e. empty;
        are_filled = h.are_filled;
      }

  unmount-IsExact :
      (s : System) (before : List SuperBlock) (sb : SuperBlock) (after : List SuperBlock)
      → IsExact s
      → s.live ≡ before ++ (sb ∷ after)
      → IsExact (record s {
        calls = s.calls ++ (myfs_kill_anon_super kill sb).0;
        live = before ++ after;
        log = s.log ++ (myfs_kill_anon_super kill sb).1;
      })
  unfolding myfs_kill_anon_super
  unmount-IsExact s before sb after h at =
      let (it, others) = AreFilled-without before sb after (subst AreFilled at h.are_filled) in
      let puts : (kill sb).0 ≡ gave root_inode ∷ [] = rw (law sb, it.rooted) in
      record {
        holds =
            held-more s.calls ((kill sb).0)
              (roots (before ++ (sb ∷ after)) ++ while_loaded s.loaded)
              (h.holds ∙ ap (λ l. some (roots l ++ while_loaded s.loaded)) at)
            ∙ ap (held (roots (before ++ (sb ∷ after)) ++ while_loaded s.loaded)) puts
            ∙ ap (λ o. o >>= λ l. held l []) (without-root before sb after (while_loaded s.loaded));
        none_left = λ e. absurd (append-cons-ne_nil before sb after (sym at ∙ h.none_left e));
        are_filled = others;
      }

  unload-IsExact :
      (s : System)
      → IsExact s
      → s.loaded ≡ true
      → s.live ≡ []
      → IsExact (record s { calls = myfs_exit s.calls; loaded = false })
  unfolding myfs_exit
  unload-IsExact s h up empty = record {
    holds =
        held-more s.calls (gave object ∷ gave slab ∷ gave line ∷ gave myfs_type ∷ [])
          (while_loaded true)
          (h.holds
            ∙ ap (λ l. some (roots l ++ while_loaded s.loaded)) empty
            ∙ ap (λ b. some (while_loaded b)) up)
        ∙ ap (λ l. some (roots l ++ while_loaded false)) (sym empty);
    none_left = λ e. empty;
    are_filled = h.are_filled;
  }

  mount-IsExact :
      (s : System) (mount_nodev : MountNodev) (given rooted : Bool)
      → IsExact s
      → IsMountNodev mount_nodev
      → s.loaded ≡ true
      → (given ≡ true → rooted ≡ true)
      → IsExact (record s {
        calls = s.calls ++ (myfs_mount mount_nodev kill given rooted).calls;
        live = with_root ((myfs_mount mount_nodev kill given rooted).entry) s.live;
        log = s.log ++ (myfs_mount mount_nodev kill given rooted).log;
      })
  unfolding myfs_mount
  mount-IsExact s mount_nodev given rooted h nodev up lucky =
      let m = mount_nodev (myfs_fill_sb given rooted) (myfs_kill_anon_super kill) in
      let it =
        Nodev-Adds kill law given rooted m (while_loaded s.loaded) s.live lucky h.are_filled
          (nodev (myfs_fill_sb given rooted) (myfs_kill_anon_super kill)) in
      record {
        holds =
            held-more s.calls m.calls (roots s.live ++ while_loaded s.loaded) h.holds ∙ it.taken;
        none_left = λ e. let both = up in cc;
        are_filled = it.filled_ones;
      }

  -- With a kernel that mounts and kills super blocks as documented, and as long as no load is
  -- refused an object or its registration and no mount its dentry: whatever is loaded, mounted,
  -- unmounted and unloaded, in whatever order, the module holds the four things that a load takes
  -- while it is loaded, and one root for each file system that is mounted, and nothing else. All of
  -- these have the magic number, a block size that fits its number of bits, and a root; none is left
  -- when the module is unloaded.
  pub run-IsExact : (s : System) (r : Reach kill s) → AreLucky kill r → IsExact s
  run-IsExact s begin lucky = record { holds = refl; none_left = λ e. refl; are_filled = tt }
  run-IsExact s (next {s = s0} past (load a idle)) lucky =
      load-IsExact s0 a (run-IsExact s0 past (lucky.1)) idle (lucky.0)
  run-IsExact s (next {s = s0} past (mount mount_nodev given rooted nodev up)) lucky =
      mount-IsExact s0 mount_nodev given rooted (run-IsExact s0 past (lucky.1)) nodev up (lucky.0)
  run-IsExact s (next {s = s0} past (unmount before sb after at)) lucky =
      unmount-IsExact s0 before sb after (run-IsExact s0 past lucky) at
  run-IsExact s (next {s = s0} past (unload up none_left)) lucky =
      unload-IsExact s0 (run-IsExact s0 past lucky) up none_left
