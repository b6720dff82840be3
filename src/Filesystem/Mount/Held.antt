-- ===== src/Filesystem/Mount/Held.antt =====
-- lab_07/main.c: what the calls of a load, a mount and an unmount take and give back.
use os6_bmstu_iu.Common.{
  ◌^◌, ◌≡◌, refl, ap, sym, ◌∙◌, Bool, true, false, Option, none, some, List, [], ◌∷◌, ◌++◌, ℤ, pos,
  negsuc, zero, suc, ◌>>=◌,
}
use os6_bmstu_iu.Kernel.{Resource, Call, took, gave, without, held}
use os6_bmstu_iu.Filesystem.{
  Answers, SuperBlock, is_zero, line, slab, object, myfs_type, root_inode, myfs_init,
}

held-append :
    (now : List Resource) (xs ys : List Call)
    → held now (xs ++ ys) ≡ (held now xs >>= λ l. held l ys)
held-append now [] ys = refl
held-append now (took r ∷ xs) ys = held-append (r ∷ now) xs ys
held-append now (gave r ∷ xs) ys = by_rest (without r now) (λ l. held-append l xs ys)
  where
    by_rest :
        (o : Option (List Resource))
        → ((l : List Resource) → held l (xs ++ ys) ≡ (held l xs >>= λ k. held k ys))
        → (o >>= λ l. held l (xs ++ ys)) ≡ ((o >>= λ l. held l xs) >>= λ l. held l ys)
    by_rest none h = refl
    by_rest (some l) h = h l

-- What the module holds while it is loaded, and for each mount.
abbrev pub while_loaded : Bool → List Resource
while_loaded true = myfs_type ∷ object ∷ slab ∷ line ∷ []
while_loaded false = []

abbrev pub roots : List SuperBlock → List Resource
roots [] = []
roots (sb ∷ sbs) = root_inode ∷ roots sbs

-- A super block as `myfs_fill_sb` leaves it.
pub record IsFilled (sb : SuperBlock) : Type 0 where
  pub magic : sb.s_magic ≡ 0xdeadbeef
  pub size : sb.s_blocksize ≡ 2 ^ sb.s_blocksize_bits
  pub rooted : sb.s_root ≡ true

abbrev pub AreFilled : List SuperBlock → Type 0
AreFilled [] = Unit {0}
AreFilled (sb ∷ sbs) = IsFilled sb × AreFilled sbs

-- The answers at which the module does not give back what it took: an object, a registration or a
-- dentry that it does not get.
abbrev pub IsLucky : Answers → Type 0
IsLucky a = a.kmalloc ≡ true → a.cache_create ≡ true → (a.cache_alloc ≡ true) × (a.ret ≡ pos 0)

-- A load takes what it holds while it is loaded, or nothing.
pub myfs_init-held :
    (a : Answers)
    → IsLucky a
    → held [] ((myfs_init a).1) ≡ some (while_loaded (is_zero ((myfs_init a).0)))
unfolding myfs_init
myfs_init-held a = by_answers a.kmalloc a.cache_create a.cache_alloc a.ret
  where
    by_answers :
        (k c o : Bool) (ret : ℤ)
        → IsLucky (record { kmalloc = k; cache_create = c; cache_alloc = o; ret = ret })
        → held []
            ((myfs_init (record { kmalloc = k; cache_create = c; cache_alloc = o; ret = ret })).1)
          ≡ some (
              while_loaded (
                is_zero (
                  (myfs_init
                    (record { kmalloc = k; cache_create = c; cache_alloc = o; ret = ret })).0)))
    by_answers false c o ret lucky = refl
    by_answers true false o ret lucky = refl
    by_answers true true false ret lucky = let none_given = (lucky refl refl).0 in cc
    by_answers true true true (pos zero) lucky = refl
    by_answers true true true (pos (suc n)) lucky = let refused = (lucky refl refl).1 in cc
    by_answers true true true (negsuc n) lucky = let refused = (lucky refl refl).1 in cc

roots-append : (xs ys : List SuperBlock) → roots (xs ++ ys) ≡ roots xs ++ roots ys
roots-append [] ys = refl
roots-append (x ∷ xs) ys = ap (◌∷◌ root_inode) (roots-append xs ys)

-- One root less, whichever mount it was for.
pub without-root :
    (before : List SuperBlock) (sb : SuperBlock) (after : List SuperBlock) (rest : List Resource)
    → without root_inode (roots (before ++ (sb ∷ after)) ++ rest)
      ≡ some (roots (before ++ after) ++ rest)
without-root [] sb after rest = refl
without-root (x ∷ before) sb after rest =
    ap (λ l. some (l ++ rest))
      (roots-append before (sb ∷ after)
        ∙ moved before after
        ∙ ap (◌∷◌ root_inode) (sym (roots-append before after)))
  where
    moved :
        (before after : List SuperBlock)
        → roots before ++ (root_inode ∷ roots after) ≡ root_inode ∷ (roots before ++ roots after)
    moved [] after = refl
    moved (b ∷ before) after = ap (◌∷◌ root_inode) (moved before after)

pub AreFilled-without :
    (before : List SuperBlock) (sb : SuperBlock) (after : List SuperBlock)
    → AreFilled (before ++ (sb ∷ after))
    → IsFilled sb × AreFilled (before ++ after)
AreFilled-without [] sb after h = h
AreFilled-without (x ∷ before) sb after h =
    let (it, rest) = AreFilled-without before sb after (h.1) in (it, (h.0, rest))

pub held-more :
    (calls more : List Call) (now : List Resource)
    → held [] calls ≡ some now
    → held [] (calls ++ more) ≡ held now more
held-more calls more now e = held-append [] calls more ∙ ap (λ o. o >>= λ l. held l more) e

pub append-cons-ne_nil :
    (xs : List SuperBlock) (x : SuperBlock) (ys : List SuperBlock) → xs ++ (x ∷ ys) ≡ [] → ⊥
append-cons-ne_nil [] x ys e = cc
append-cons-ne_nil (y ∷ xs) x ys e = cc
