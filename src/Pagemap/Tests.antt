-- ===== src/Pagemap/Tests.antt =====
-- The theorems on pagemap entries for a kernel that gives three bytes at a time.
use Prim.Native.Nat.{min}
use os6_bmstu_iu.Common.{ℕ, ◌+◌, ◌*◌, ◌-◌, ◌≡◌, refl, ap, some, List, [], ◌∷◌, ℤ, pos, arith}
use os6_bmstu_iu.Pagemap.{PagemapEntry, pagemap_get_entry}
use os6_bmstu_iu.Pagemap.Entry.{IsEntry, Gives, pagemap_get_entry-fields}

abbrev three : (count offset : ℕ) → ℤ
three count offset = pos (min count 3)

three-Gives : (offset : ℕ) → Gives three offset
three-Gives offset = record {
  amount = λ n small. (min (8 - n) 3 - 1, ap pos (omega arith), omega arith);
}

-- Two entries; the second is a present page with the frame 0x1234.
abbrev file : List ℕ
file = 0 ∷ 0 ∷ 0 ∷ 0 ∷ 0 ∷ 0 ∷ 0 ∷ 0 ∷ 0x34 ∷ 0x12 ∷ 0 ∷ 0 ∷ 0 ∷ 0 ∷ 0x80 ∷ 0x81 ∷ []

abbrev second : PagemapEntry
second = record { pfn = 0x1234; soft_dirty = 1; file_page = 0; swapped = 0; present = 1 }

second-IsEntry : IsEntry second
second-IsEntry = record {
  pfn_width = omega arith;
  soft_dirty_bit = omega arith;
  file_page_bit = omega arith;
  swapped_bit = omega arith;
  present_bit = omega arith;
}

pagemap_get_entry-fields_example :
    pagemap_get_entry three file (4096 * 1 + 8) ≡ some (0, some second)
pagemap_get_entry-fields_example =
    pagemap_get_entry-fields three file 1 8 second 1 [] (omega arith) second-IsEntry (omega arith)
      refl (three-Gives 8)

second_result : pagemap_get_entry three file 0x1008 ≡ some (0, some second)
unfolding pagemap_get_entry
second_result = refl
