-- ===== src/Symbols/Orders.antt =====
-- lab_03/part2: which of the modules are loaded after any commands.
use os6_bmstu_iu.Common.{◌≡◌, refl, subst, sym, Bool, true, false, not, ◌&&◌, ◌||◌, List, [], ◌∷◌}
use os6_bmstu_iu.Symbols.{
  Mod, md1, md2, md3, Entry, md_init, Kernel, Loader, IsLoader, loaded_after, left_after, Command,
  load, unload, run,
}

-- Whether md1 and md2 are to be loaded after a command, by what they were: md1 loads at any time, md2
-- only behind md1, and md3 never stays; md1 stays as long as md2 is there, and md2 can go.
abbrev pub after : Command → Bool × Bool → Bool × Bool
after (load md1) (one, two) = (true, two)
after (load md2) (one, two) = (one, one || two)
after (load md3) p = p
after (unload md1) (one, two) = (one && two, two)
after (unload md2) (one, two) = (one, false)
after (unload md3) p = p

abbrev pub after_all : List Command → Bool × Bool → Bool × Bool
after_all [] p = p
after_all (c ∷ cs) p = after_all cs (after c p)

-- What is loaded.
pub record IsLoaded (f : Mod → Bool) (p : Bool × Bool) : Type 0 where
  pub first : f md1 ≡ p.0
  pub second : f md2 ≡ p.1
  pub third : f md3 ≡ false

-- md2 is not there without md1.
abbrev IsOrdered : Bool × Bool → Type 0
IsOrdered (one, two) = (not two || one) ≡ true

after-IsOrdered : (c : Command) (p : Bool × Bool) → IsOrdered p → IsOrdered (after c p)
after-IsOrdered (load md1) (one, true) h = refl
after-IsOrdered (load md1) (one, false) h = refl
after-IsOrdered (load md2) (true, two) h = refl
after-IsOrdered (load md2) (false, two) h = h
after-IsOrdered (load md3) p h = h
after-IsOrdered (unload md1) (true, true) h = refl
after-IsOrdered (unload md1) (false, true) h = h
after-IsOrdered (unload md1) (one, false) h = refl
after-IsOrdered (unload md2) (one, two) h = refl
after-IsOrdered (unload md3) p h = h

loaded_after-IsLoaded :
    (m : Mod) (f : Mod → Bool) (p : Bool × Bool)
    → IsOrdered p
    → IsLoaded f p
    → IsLoaded (loaded_after m f) (after (load m) p)
unfolding loaded_after md_init
loaded_after-IsLoaded md1 f (true, two) o h =
    rw h.first (record { first = h.first; second = h.second; third = h.third })
loaded_after-IsLoaded md1 f (false, two) o h =
    rw h.first (record { first = refl; second = h.second; third = h.third })
loaded_after-IsLoaded md2 f (true, true) o h =
    rw h.second (record { first = h.first; second = h.second; third = h.third })
loaded_after-IsLoaded md2 f (true, false) o h =
    rw (h.second, h.first) (record { first = h.first; second = refl; third = h.third })
loaded_after-IsLoaded md2 f (false, true) o h = cc
loaded_after-IsLoaded md2 f (false, false) o h =
    rw (h.second, h.first, h.third) (record { first = h.first; second = h.second; third = h.third })
loaded_after-IsLoaded md3 f (true, two) o h =
    rw (h.third, h.first) (record { first = h.first; second = h.second; third = h.third })
loaded_after-IsLoaded md3 f (false, true) o h = cc
loaded_after-IsLoaded md3 f (false, false) o h =
    rw (h.third, h.first, h.second) (record { first = h.first; second = h.second; third = h.third })

left_after-IsLoaded :
    (m : Mod) (f : Mod → Bool) (p : Bool × Bool)
    → IsOrdered p
    → IsLoaded f p
    → IsLoaded (left_after m f) (after (unload m) p)
unfolding left_after
left_after-IsLoaded md1 f (true, true) o h =
    rw (h.first, h.second) (record { first = h.first; second = h.second; third = h.third })
left_after-IsLoaded md1 f (true, false) o h =
    rw (h.first, h.second, h.third) (record { first = refl; second = h.second; third = h.third })
left_after-IsLoaded md1 f (false, two) o h =
    rw h.first (record { first = h.first; second = h.second; third = h.third })
left_after-IsLoaded md2 f (one, false) o h =
    rw h.second (record { first = h.first; second = h.second; third = h.third })
left_after-IsLoaded md2 f (true, true) o h =
    rw (h.second, h.first, h.third) (record { first = h.first; second = refl; third = h.third })
left_after-IsLoaded md2 f (false, true) o h = cc
left_after-IsLoaded md3 f p o h =
    rw h.third (record { first = h.first; second = h.second; third = h.third })

module _ (l : Loader) (law : IsLoader l) where
  run-onto :
      (cs : List Command) (k : Kernel) (p : Bool × Bool)
      → IsOrdered p
      → IsLoaded k.loaded p
      → IsLoaded (run l cs k).loaded (after_all cs p)
  unfolding run
  run-onto [] k p o h = h
  run-onto (load m ∷ cs) k p o h =
      run-onto cs (l.insmod m k) (after (load m) p) (after-IsOrdered (load m) p o) (
        subst (λ f. IsLoaded f (after (load m) p)) (sym (law.loads m k))
          (loaded_after-IsLoaded m k.loaded p o h))
  run-onto (unload m ∷ cs) k p o h =
      run-onto cs (l.rmmod m k) (after (unload m) p) (after-IsOrdered (unload m) p o) (
        subst (λ f. IsLoaded f (after (unload m) p)) (sym (law.leaves m k))
          (left_after-IsLoaded m k.loaded p o h))

-- With a kernel that loads a module if all that it uses is exported, keeps it if its md_init gives 0,
-- and unloads it if it has an exit and no other one uses it: after any commands from a start with none
-- loaded, md1 and md2 are loaded exactly as `after_all` says. md1 loads at any time, md2 only behind
-- md1; md1 stays as long as md2 is there; md3, whose md_init gives -1, is never loaded.
pub run-IsLoaded :
    (l : Loader) (cs : List Command) (log : List Entry)
    → IsLoader l
    → IsLoaded
        (run l cs (record { loaded = λ m. false; log = log })).loaded
        (after_all cs (false, false))
run-IsLoaded l cs log law =
    run-onto l law cs (record { loaded = λ m. false; log = log }) (false, false) refl
      (record { first = refl; second = refl; third = refl })
