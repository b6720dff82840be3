-- ===== src/Procinfo/Maps/Whole.antt =====
-- lab_04/part1/lib/output_funcs.c: what fprintPagemap writes for the lines of maps.
use os6_bmstu_iu.Common.{
  ℕ, zero, suc, ◌+◌, ◌-◌, ◌*◌, ◌/◌, ◌%◌, ◌≤◌, ◌<◌, ◌≡◌, refl, ap, sym, ◌∙◌, subst, false, Option,
  none, some, List, [], ◌∷◌, ◌++◌, append_assoc, append-nil, arith, ℤ, codes, length, length-append,
  take, take-le, drop, drop-le, is_nil, get_elem?, lt→ltb, ltb_of_le, ◌==◌, ==_ne,
}
use os6_bmstu_iu.Pagemap.{PagemapEntry, pagemap_get_entry, page_size}
use os6_bmstu_iu.Pagemap.Ends.{answer_of, pagemap_get_entry-ends}
use os6_bmstu_iu.Procinfo.{done, ◌>>=◌, title, get_path, lf}
use os6_bmstu_iu.Procinfo.Maps.{word, parse, line_start}
use os6_bmstu_iu.Procinfo.Maps.Scan.{
  drop-suc, get-drop, drop-plus, Without, IsStart, line_start-found,
}
use os6_bmstu_iu.Procinfo.Maps.Line.{MapLine, IsLine, range_of, parse-text}
use os6_bmstu_iu.Procinfo.Maps.Lines.{
  line_text, maps_text, AreLines, text-append, line_text-Without, first_byte,
}
use os6_bmstu_iu.Procinfo.Maps.Pages.{
  entry_line, page_line, pages, range_pages, scan, reads, fprint_pagemap,
}

-- What stands for a page: nothing without an entry.
abbrev pub shown : (addr : ℕ) → (lib_name : List ℕ) → Option (ℕ × Option PagemapEntry) → List ℕ
shown addr lib_name (some (zero, some e)) = entry_line addr e lib_name
shown addr lib_name _ = []

module _ (pread : (count offset : ℕ) → ℤ) (pagemap : List ℕ) where
  -- The lines of `k` pages from `addr` on.
  abbrev pub rows : (k addr : ℕ) → (lib_name : List ℕ) → List ℕ
  rows zero addr lib_name = []
  rows (suc k) addr lib_name =
      shown addr lib_name (pagemap_get_entry pread pagemap addr)
      ++ rows k (addr + page_size) lib_name

  page_line-done :
      (addr : ℕ) (lib_name : List ℕ)
      → page_line addr lib_name (pagemap_get_entry pread pagemap addr)
        ≡ done (shown addr lib_name (pagemap_get_entry pread pagemap addr))
  page_line-done addr lib_name =
      let (m, e) = pagemap_get_entry-ends pread pagemap addr in rw e (by_entry m)
    where
      by_entry :
          (m : Option PagemapEntry)
          → page_line addr lib_name (some (answer_of m))
            ≡ done (shown addr lib_name (some (answer_of m)))
      by_entry none = refl
      by_entry (some e) = refl

  pages-rows :
      (k n addr high : ℕ) (lib_name : List ℕ)
      → k < n
      → high ≤ addr + k * page_size
      → addr + k * page_size < high + page_size
      → high + page_size ≤ word
      → pages pread pagemap n addr high lib_name ≡ done (rows k addr lib_name)
  unfolding pages
  pages-rows k zero addr high lib_name lt enough fits no_wrap = absurd (omega arith)
  pages-rows zero (suc n) addr high lib_name lt enough fits no_wrap =
      rw (ltb_of_le addr high (omega arith)) refl
  pages-rows (suc k) (suc n) addr high lib_name lt enough fits no_wrap =
      let within : addr < high = omega arith in
      let same : (addr + page_size) % word ≡ addr + page_size = omega arith in
      let rest =
        pages-rows k n (addr + page_size) high lib_name (omega arith) (omega arith) (omega arith)
          no_wrap in
      rw (lt→ltb addr high within, page_line-done addr lib_name, same, rest) refl

  -- The pages of a range.
  abbrev pub count : (low high : ℕ) → ℕ
  count low high = (high - low + (page_size - 1)) / page_size

  range_pages-rows :
      (l : MapLine)
      → IsLine l
      → range_pages pread pagemap (range_of l) ≡ done (rows (count l.low l.high) l.low l.name)
  range_pages-rows l h =
      let ordered : l.low ≤ l.high = h.ordered in
      let no_wrap : l.high + page_size ≤ word = h.no_wrap in
      pages-rows (count l.low l.high) (suc (l.high - l.low)) l.low l.high l.name (omega arith)
        (omega arith) (omega arith) no_wrap

  -- The lines of all pages of all ranges.
  abbrev pub all_rows : List MapLine → List ℕ
  all_rows [] = []
  all_rows (l ∷ ls) = rows (count l.low l.high) l.low l.name ++ all_rows ls

  -- Bytes before the line end are passed.
  scan-Without :
      (m i : ℕ) (buf s rest : List ℕ)
      → drop i buf ≡ s ++ rest
      → Without lf s
      → scan pread pagemap (length s + m) i buf ≡ scan pread pagemap m (i + length s) buf
  unfolding scan
  scan-Without m i buf [] rest e free =
      let none_left : 0 + m ≡ m = omega arith in
      let same : i ≡ i + 0 = omega arith in rw none_left (ap (λ j. scan pread pagemap m j buf) same)
  scan-Without m i buf (c ∷ s) rest e free =
      let here : get_elem? buf i ≡ some c = get-drop i c buf (s ++ rest) e in
      let one_more : suc (length s) + m ≡ suc (length s + m) = omega arith in
      let further : i + suc (length s) ≡ suc i + length s = omega arith in
      rw one_more (
        rw (here, ==_ne c lf (free.0), further)
          (scan-Without m (suc i) buf s rest (drop-suc i c buf (s ++ rest) e) (free.1)))

  -- The line end of a line.
  scan-lf :
      (m x : ℕ) (l : MapLine) (buf rest : List ℕ)
      → drop x buf ≡ line_text l ++ (lf ∷ rest)
      → IsLine l
      → IsStart buf x
      → scan pread pagemap (suc m) (x + length (line_text l)) buf ≡ (
          scan pread pagemap m (suc (x + length (line_text l))) buf >>= λ more.
          done (rows (count l.low l.high) l.low l.name ++ more))
  unfolding scan
  scan-lf m x l buf rest e h starts =
      let (c, s, front) = first_byte l in
      let size : length (line_text l) ≡ suc (length s) = ap length front in
      let i : ℕ = x + length (line_text l) in
      let here : get_elem? buf i ≡ some lf =
        get-drop i lf buf rest (drop-plus x buf (line_text l) (lf ∷ rest) e) in
      let not_first : i == 0 ≡ false = ==_ne i 0 (λ z. omega (arith, size, z)) in
      let start : line_start buf i ≡ done x =
        line_start-found x i c buf s (lf ∷ rest) (e ∙ ap (λ t. t ++ (lf ∷ rest)) front)
          (subst (Without lf) front (line_text-Without l h)) (omega (arith, size)) starts in
      let read : parse buf i ≡ done (range_of l) =
        parse-text l buf x i rest h (e ∙ sym (text-append l (lf ∷ rest))) start in
      rw (here, not_first, read, range_pages-rows l h) refl

  scan-maps_text :
      (ls : List MapLine) (x : ℕ) (buf rest : List ℕ)
      → drop x buf ≡ maps_text ls ++ rest
      → AreLines ls
      → IsStart buf x
      → scan pread pagemap (length (maps_text ls)) x buf ≡ done (all_rows ls)
  unfolding scan IsStart
  scan-maps_text [] x buf rest e h starts = refl
  scan-maps_text (l ∷ ls) x buf rest e h starts =
      let e' : drop x buf ≡ line_text l ++ (lf ∷ (maps_text ls ++ rest)) =
        e ∙ append_assoc (line_text l) (lf ∷ maps_text ls) rest in
      let i : ℕ = x + length (line_text l) in
      let at_end : drop i buf ≡ lf ∷ (maps_text ls ++ rest) =
        drop-plus x buf (line_text l) (lf ∷ (maps_text ls ++ rest)) e' in
      let size : length (maps_text (l ∷ ls)) ≡ length (line_text l) + suc (length (maps_text ls)) =
        length-append (line_text l) (lf ∷ maps_text ls) in
      let rest_read : scan pread pagemap (length (maps_text ls)) (suc i) buf ≡ done (all_rows ls) =
        scan-maps_text ls (suc i) buf rest (drop-suc i lf buf (maps_text ls ++ rest) at_end) (h.1)
          (get-drop i lf buf (maps_text ls ++ rest) at_end) in
      ap (λ n. scan pread pagemap n x buf) size
      ∙ scan-Without (suc (length (maps_text ls))) x buf (line_text l) _ e'
          (line_text-Without l (h.0))
      ∙ scan-lf (length (maps_text ls)) x l buf _ e' (h.0) starts
      ∙ rw rest_read refl

  not_nil : (s t : List ℕ) (c : ℕ) → is_nil (s ++ (c ∷ t)) ≡ false
  not_nil [] t c = refl
  not_nil (d ∷ s) t c = refl

  reads-nil : (n : ℕ) (buf : List ℕ) → reads pread pagemap (suc n) [] buf ≡ done []
  unfolding reads
  reads-nil n buf =
      let nothing : take {A = ℕ} (length buf) [] ≡ [] = take-le [] (length buf) (omega arith) in
      rw nothing refl

  -- All of maps in one read.
  reads-maps_text :
      (n : ℕ) (ls : List MapLine) (buffer : List ℕ)
      → AreLines ls
      → length (maps_text ls) ≤ length buffer
      → reads pread pagemap (suc (suc n)) (maps_text ls) buffer ≡ done (all_rows ls)
  unfolding reads IsStart
  reads-maps_text n [] buffer h le = reads-nil (suc n) buffer
  reads-maps_text n (l ∷ ls) buffer h le =
      let all = maps_text (l ∷ ls) in
      let buf : List ℕ = all ++ drop (length all) buffer in
      let whole : take (length buffer) all ≡ all = take-le all (length buffer) le in
      let none_left : drop (length buffer) all ≡ [] = drop-le (length buffer) all le in
      let read : scan pread pagemap (length all) 0 buf ≡ done (all_rows (l ∷ ls)) =
        scan-maps_text (l ∷ ls) 0 buf (drop (length all) buffer) refl h tt in
      rw (whole, none_left, not_nil (line_text l) (maps_text ls) lf, read, reads-nil n buf)
        (ap done (append-nil (all_rows (l ∷ ls))))

  -- If all of maps fits into the buffer, fprintPagemap writes, behind the title and the heading, a
  -- line for each page of each range that has an entry, with the name of its range: whatever the
  -- buffer held before, nothing behind it is read, and all loops end.
  pub fprint_pagemap-rows :
      (ls : List MapLine) (buffer : List ℕ)
      → AreLines ls
      → length (maps_text ls) ≤ length buffer
      → fprint_pagemap pread pagemap (maps_text ls) buffer
        ≡ done (
            title (get_path (codes "pagemap"))
            ++ (codes "addr pfn soft-dirty file/shared swapped present library"
                ++ (lf ∷ all_rows ls)))
  unfolding fprint_pagemap
  fprint_pagemap-rows ls buffer h le =
      rw (reads-maps_text (length (maps_text ls)) ls buffer h le) refl
