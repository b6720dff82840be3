-- ===== src/Pagemap/Entry.antt =====
-- lab_04/part1/lib/output_funcs.c: the entry that is read, however the kernel splits the reads.
use os6_bmstu_iu.Common.{
  ℕ, zero, suc, ◌+◌, ◌*◌, ◌-◌, ◌/◌, ◌%◌, ◌^◌, ◌≤◌, ◌<◌, ◌≡◌, refl, ap, sym, ◌∙◌, subst, some, List,
  [], ◌∷◌, ◌++◌, ℤ, pos, arith, ltb, ltb→lt, take, drop, Bool-cases, inl, inr,
}
use os6_bmstu_iu.Pagemap.{
  PagemapEntry, value, fields, offset_of, complete, read_data, pagemap_get_entry,
}

-- The 64 bits of an entry whose bits 56 to 60 are `other`.
abbrev pub bits_of : PagemapEntry → (other : ℕ) → ℕ
bits_of e other =
    e.pfn
    + 2 ^ 55
      * (e.soft_dirty + 2 * (other + 2 ^ 5 * (e.file_page + 2 * (e.swapped + 2 * e.present))))

-- The lowest bytes of a number, the lowest first.
abbrev pub bytes_of : (count : ℕ) → ℕ → List ℕ
bytes_of zero n = []
bytes_of (suc k) n = n % 256 ∷ bytes_of k (n / 256)

value-bytes_of : (n : ℕ) → n < 2 ^ 64 → value (bytes_of 8 n) ≡ n
value-bytes_of n small = omega arith

take-bytes_of : (n : ℕ) (after : List ℕ) → take 8 (bytes_of 8 n ++ after) ≡ bytes_of 8 n
take-bytes_of n after = refl

-- Each field has its width.
pub record IsEntry (e : PagemapEntry) : Type 0 where
  pub pfn_width : e.pfn < 2 ^ 55
  pub soft_dirty_bit : e.soft_dirty < 2
  pub file_page_bit : e.file_page < 2
  pub swapped_bit : e.swapped < 2
  pub present_bit : e.present < 2

-- Fields within their widths, put at their places, are read back, whatever the five bits between
-- them are.
pub fields-bits_of :
    (e : PagemapEntry) (other : ℕ) → IsEntry e → other < 2 ^ 5 → fields (bits_of e other) ≡ e
unfolding fields
fields-bits_of e other h small =
    let bits = bits_of e other in
    let pfn : bits % 2 ^ 55 ≡ e.pfn = omega arith in
    let soft_dirty : bits / 2 ^ 55 % 2 ≡ e.soft_dirty = omega arith in
    let file_page : bits / 2 ^ 61 % 2 ≡ e.file_page = omega arith in
    let swapped : bits / 2 ^ 62 % 2 ≡ e.swapped = omega arith in
    let present : bits / 2 ^ 63 % 2 ≡ e.present = omega arith in
    rw (pfn, soft_dirty, file_page, swapped, present)

bits_of-width :
    (e : PagemapEntry) (other : ℕ) → IsEntry e → other < 2 ^ 5 → bits_of e other < 2 ^ 64
bits_of-width e other h small =
    omega (arith, h.pfn_width, h.soft_dirty_bit, h.file_page_bit, h.swapped_bit, h.present_bit)

-- What `pread` promises for the bytes at `offset`: it gives at least one of those asked for, and no more.
pub record Gives (pread : (count offset : ℕ) → ℤ) (offset : ℕ) : Type 0 where
  pub amount :
      (n : ℕ) → n < 8 → (k : ℕ) × (pread (8 - n) (offset + n) ≡ pos (suc k)) × (suc k ≤ 8 - n)

take-nil : (n : ℕ) → take {A = ℕ} n [] ≡ []
take-nil zero = refl
take-nil (suc n) = refl

-- Two reads in a row.
take-more : (a b c : ℕ) (l : List ℕ) → c ≡ a + b → take a l ++ take b (drop a l) ≡ take c l
take-more zero b c l e = ap (λ n. take n l) (omega arith)
take-more (suc a) b c [] e = take-nil b ∙ sym (take-nil c)
take-more (suc a) b zero (x ∷ l) e = absurd (omega arith)
take-more (suc a) b (suc c) (x ∷ l) e = ap (◌∷◌ x) (take-more a b c l (omega arith))

drop-drop : (a b c : ℕ) (l : List ℕ) → c ≡ a + b → drop b (drop a l) ≡ drop c l
drop-drop zero b c l e = ap (λ n. drop n l) (omega arith)
drop-drop (suc a) zero c [] e = drop-nil c
  where
    drop-nil : (n : ℕ) → [] ≡ drop {A = ℕ} n []
    drop-nil zero = refl
    drop-nil (suc n) = refl
drop-drop (suc a) (suc b) zero [] e = absurd (omega arith)
drop-drop (suc a) (suc b) (suc c) [] e = refl
drop-drop (suc a) b zero (x ∷ l) e = absurd (omega arith)
drop-drop (suc a) b (suc c) (x ∷ l) e = drop-drop a b c l (omega arith)

module _ (pread : (count offset : ℕ) → ℤ) (file : List ℕ) where
  -- From `nread` bytes on, as many rounds as bytes are missing, and one more, read the rest.
  read_data-complete :
      (fuel offset nread : ℕ)
      → Gives pread offset
      → nread ≤ 8
      → 8 < nread + fuel
      → read_data pread file fuel offset nread (take nread (drop offset file))
        ≡ complete (take 8 (drop offset file))
  unfolding read_data
  read_data-complete zero offset nread gives within enough = absurd (omega arith)
  read_data-complete (suc fuel) offset nread gives within enough = elim (Bool-cases (ltb nread 8)) [
    | inr full ↦
        let eight : nread ≡ 8 = ground (arith, full) in
        rw full (ap (λ n. complete (take n (drop offset file))) eight)
    | inl missing ↦
        let (k, amount, some_left) = gives.amount nread (ltb→lt nread 8 missing) in
        let joined : take nread (drop offset file) ++ take (suc k) (drop (offset + nread) file)
            ≡ take (nread + suc k) (drop offset file) =
          rw (← drop-drop offset nread (offset + nread) file refl)
            (take-more nread (suc k) (nread + suc k) (drop offset file) refl) in
        rw (missing, amount, joined)
          (read_data-complete fuel offset (nread + suc k) gives
            (omega (arith, ltb→lt nread 8 missing)) (omega arith))
  ]

  -- If the file holds at eight times the number of a page the eight bytes, the lowest first, of a
  -- number in which an entry has its frame in the bits 0 to 54, soft-dirty in bit 55, file-page in bit
  -- 61, swapped in bit 62 and present in bit 63, and each `pread` of these bytes gives at least one of
  -- those asked for, then the call for any address in the page of 4096 bytes returns 0 and the entry,
  -- however the kernel splits the eight bytes and whatever the bits 56 to 60 are.
  pub pagemap_get_entry-fields :
      (page within : ℕ) (e : PagemapEntry) (other : ℕ) (after : List ℕ)
      → within < 4096
      → IsEntry e
      → other < 2 ^ 5
      → drop (8 * page) file ≡ bytes_of 8 (bits_of e other) ++ after
      → Gives pread (8 * page)
      → pagemap_get_entry pread file (4096 * page + within) ≡ some (0, some e)
  unfolding pagemap_get_entry
  pagemap_get_entry-fields page within e other after inside h small there gives =
      let vaddr = 4096 * page + within in
      let at : offset_of vaddr ≡ 8 * page = omega arith in
      let whole =
        read_data-complete 9 (offset_of vaddr) 0 (subst (Gives pread) (sym at) gives) (omega arith)
          (omega arith) in
      let bytes : take 8 (drop (offset_of vaddr) file) ≡ bytes_of 8 (bits_of e other) =
        ap (λ o. take 8 (drop o file)) at
        ∙ ap (take 8) there
        ∙ take-bytes_of (bits_of e other) after in
      rw whole (
        ap (λ l. some (0, some (fields (value l)))) bytes
        ∙ ap (λ n. some (0, some (fields n)))
            (value-bytes_of (bits_of e other) (bits_of-width e other h small))
        ∙ ap (λ f. some (0, some f)) (fields-bits_of e other h small))
