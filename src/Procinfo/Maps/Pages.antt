-- ===== src/Procinfo/Maps/Pages.antt =====
-- lab_04/part1/lib/output_funcs.c: the loops of fprintPagemap over pages, lines and reads.
use os6_bmstu_iu.Common.{
  ℕ, zero, suc, ◌+◌, ◌-◌, not, ◌&&◌, Option, none, some, List, [], ◌∷◌, ◌++◌, ℤ, codes, length,
  take, drop, is_nil, ltb, ◌%◌, ◌==◌, if◌then◌else◌, print,
}
use os6_bmstu_iu.Pagemap.{PagemapEntry, pagemap_get_entry, page_size}
use os6_bmstu_iu.Procinfo.{Outcome, done, out_of_fuel, need, ◌>>=◌, title, get_path, lf}
use os6_bmstu_iu.Procinfo.Maps.{at, word, Range, parse}
use os6_bmstu_iu.Procinfo.Maps.Hex.{print_hex}

-- `fprintf(f_out, "%jx %jx %u %u %u %u %s\n", …)`
abbrev pub entry_line : (addr : ℕ) → PagemapEntry → (lib_name : List ℕ) → List ℕ
entry_line addr e lib_name =
    print_hex addr
    ++ (b' '
        ∷ (print_hex e.pfn
            ++ (b' '
                ∷ (print e.soft_dirty
                    ++ (b' '
                        ∷ (print e.file_page
                            ++ (b' '
                                ∷ (print e.swapped
                                    ++ (b' '
                                        ∷ (print e.present
                                            ++ (b' ' ∷ (lib_name ++ (lf ∷ [])))))))))))))

-- What is written for a page: nothing if its entry cannot be read.
abbrev pub page_line :
    (addr : ℕ) → (lib_name : List ℕ) → Option (ℕ × Option PagemapEntry) → Outcome (List ℕ)
page_line addr lib_name none = out_of_fuel
page_line addr lib_name (some (ret, entry)) =
    if ret == 0 then (need entry >>= λ e. done (entry_line addr e lib_name)) else done []

-- How `pread` answers on the page map, and the bytes of it.
module _ (pread : (count offset : ℕ) → ℤ) (pagemap : List ℕ) where
  -- `for (uintptr_t addr = low; addr < high; addr += sysconf(_SC_PAGE_SIZE))`, in 64 bits.
  unfoldable pub pages : (fuel : ℕ) → (addr high : ℕ) → (lib_name : List ℕ) → Outcome (List ℕ)
  pages zero addr high lib_name = out_of_fuel
  pages (suc n) addr high lib_name =
      let next = pages n ((addr + page_size) % word) high lib_name in
      if ltb addr high
      then (page_line addr lib_name (pagemap_get_entry pread pagemap addr) >>= λ line.
          next >>= λ more. done (line ++ more))
      else done []

  -- Each round but the last adds to `low`, so this fuel is gone only if the address wraps.
  abbrev pub range_pages : Range → Outcome (List ℕ)
  range_pages r = pages (suc (r.high - r.low)) r.low r.high r.lib_name

  -- `for (size_t i = offset; i < (size_t)length; i++)`, with the number of bytes left.
  unfoldable pub scan : (left : ℕ) → (i : ℕ) → List ℕ → Outcome (List ℕ)
  scan zero i buf = done []
  scan (suc k) i buf = at buf i >>= λ c.
      let next = scan k (suc i) buf in
      if (c == lf) && not (i == 0)
      then (parse buf i >>= λ r. range_pages r >>= λ text. next >>= λ more. done (text ++ more))
      else next

  -- `for (;;)` over the reads of maps: `offset` stays 0, so each read starts at the front.
  unfoldable pub reads : (fuel : ℕ) → (left buf : List ℕ) → Outcome (List ℕ)
  reads zero left buf = out_of_fuel
  reads (suc n) left buf =
      let chunk = take (length buf) left in
      let buf' = chunk ++ drop (length chunk) buf in
      let next = reads n (drop (length buf) left) buf' in
      if is_nil chunk
      then done []
      else (scan (length chunk) 0 buf' >>= λ text. next >>= λ more. done (text ++ more))

  -- `fprintPagemap` on the bytes of maps, with what the memory of its buffer held.
  unfoldable pub fprint_pagemap : (maps buffer : List ℕ) → Outcome (List ℕ)
  fprint_pagemap maps buffer = reads (suc (suc (length maps))) maps buffer >>= λ text. done (
      title (get_path (codes "pagemap"))
      ++ (codes "addr pfn soft-dirty file/shared swapped present library" ++ (lf ∷ text)))
