-- ===== src/Pagemap/Ends.antt =====
-- lab_04/part1/lib/output_funcs.c: the loop of pagemap_get_entry ends, whatever pread answers.
use os6_bmstu_iu.Common.{
  some-eq, ℕ, zero, suc, ◌+◌, ◌-◌, ◌<◌, ◌≡◌, ◌≢◌, refl, Bool, true, false, Option, none, some, List,
  [], ◌++◌, arith, ℤ, pos, negsuc, take, drop, ltb, if◌then◌else◌, not, ◌==◌, ◌%◌, sym, ◌∙◌, ap,
}
use os6_bmstu_iu.Pagemap.{
  PagemapEntry, pagemap_get_entry, page_size, Physical, physical, physical_of, virt_to_phys_user,
  Read, complete, failed, out_of_fuel, read_data, offset_of, fields, value,
}

-- What the call returns, and the entry if it was set.
abbrev pub answer_of : Option PagemapEntry → ℕ × Option PagemapEntry
answer_of none = (1, none)
answer_of (some e) = (0, some e)

module _ (pread : (count offset : ℕ) → ℤ) (file : List ℕ) where
  read_data-ends :
      (n offset nread : ℕ) (data_bytes : List ℕ)
      → 0 < n
      → 8 < nread + n
      → read_data pread file n offset nread data_bytes ≢ out_of_fuel
  unfolding read_data
  read_data-ends zero offset nread data_bytes some_left lt e = omega arith
  read_data-ends (suc n) offset nread data_bytes some_left lt e =
      by_answer (ltb nread 8) refl (pread (8 - nread) (offset + nread))
        (λ m small.
          read_data-ends n offset (nread + suc m)
            (data_bytes ++ take (suc m) (drop (offset + nread) file)) (ground (arith, small))
            (ground (arith, small)))
        e
    where
      by_answer :
          (b : Bool)
          → ltb nread 8 ≡ b
          → (z : ℤ)
          → ((m : ℕ)
              → ltb nread 8 ≡ true
              → read_data pread file n offset
                  (nread + suc m)
                  (data_bytes ++ take (suc m) (drop (offset + nread) file))
                ≢ out_of_fuel)
          → (if b
              then elim z [
                | negsuc e ↦ failed
                | pos zero ↦ failed
                | pos (suc m) ↦
                    read_data pread file n offset
                      (nread + suc m)
                      (data_bytes ++ take (suc m) (drop (offset + nread) file))
              ]
              else complete data_bytes)
            ≡ out_of_fuel
          → ⊥
      by_answer false small z again e = cc
      by_answer true small (negsuc m) again e = cc
      by_answer true small (pos zero) again e = cc
      by_answer true small (pos (suc m)) again e = again m small e

  -- An entry is read, or the call fails.
  pub pagemap_get_entry-ends :
      (vaddr : ℕ)
      → (m : Option PagemapEntry) × (pagemap_get_entry pread file vaddr ≡ some (answer_of m))
  unfolding pagemap_get_entry
  pagemap_get_entry-ends vaddr =
      by_read (read_data pread file 9 (offset_of vaddr) 0 [])
        (read_data-ends 9 (offset_of vaddr) 0 [] (omega arith) (omega arith))
    where
      by_read :
          (r : Read)
          → r ≢ out_of_fuel
          → (m : Option PagemapEntry) × ((elim r [
            | complete data_bytes ↦ some (0, some (fields (value data_bytes)))
            | failed ↦ some (1, none)
            | out_of_fuel ↦ none
          ])
              ≡ some (answer_of m))
      by_read (complete data_bytes) ends = (some (fields (value data_bytes)), refl)
      by_read failed ends = (none, refl)
      by_read out_of_fuel ends = absurd (ends refl)

-- An address that is given has the offset of the virtual one in its page, and the descriptor is left
-- open whenever none is given.
pub record IsPhysical (vaddr : ℕ) (r : Physical) : Type 0 where
  pub within : (p : ℕ) → r.paddr ≡ some p → p % page_size ≡ vaddr % page_size
  pub leaks : r.left_open ≡ not (r.ret == 0)

-- With a page map that opens, virt_to_phys_user ends whatever the kernel answers; an address that it
-- gives has the offset of the virtual one in its page, and its descriptor is left open exactly if it
-- returns a failure.
pub virt_to_phys_user-IsPhysical :
    (pread : (count offset : ℕ) → ℤ) (file : List ℕ) (vaddr : ℕ)
    → (r : Physical) × (virt_to_phys_user pread (some file) vaddr ≡ some r) × IsPhysical vaddr r
unfolding virt_to_phys_user
virt_to_phys_user-IsPhysical pread file vaddr =
    let (m, e) = pagemap_get_entry-ends pread file vaddr in rw e (by_entry m)
  where
    in_page : (e : PagemapEntry) → physical e vaddr % page_size ≡ vaddr % page_size
    in_page e = omega arith

    by_entry :
        (m : Option PagemapEntry)
        → (r : Physical) × (physical_of vaddr (some (answer_of m)) ≡ some r) × IsPhysical vaddr r
    by_entry none = (_, refl, record { within = λ p e. cc; leaks = refl })
    by_entry (some e) = (
      _,
      refl,
      record {
        within = λ p same. ap (λ q. q % page_size) (sym (some-eq same)) ∙ in_page e;
        leaks = refl;
      },
    )
