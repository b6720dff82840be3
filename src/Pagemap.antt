-- ===== src/Pagemap.antt =====
-- lab_04/part1/lib/output_funcs.c: one entry of /proc/<pid>/pagemap.
pub mod Entry
pub mod Ends
mod Tests
use os6_bmstu_iu.Common.{
  ℕ, zero, suc, ◌+◌, ◌*◌, ◌-◌, ◌/◌, ◌%◌, ◌^◌, ◌≡◌, Bool, true, false, Option, none, some, List, [],
  ◌∷◌, ◌++◌, ℤ, pos, negsuc, ltb, ◌==◌, if◌then◌else◌, length, take, drop,
}

-- `PagemapEntry`, with the widths of its bit fields.
pub record PagemapEntry : Type 0 where
  pub pfn : ℕ
  pub soft_dirty : ℕ
  pub file_page : ℕ
  pub swapped : ℕ
  pub present : ℕ

-- The value of bytes in memory, on a little-endian machine.
abbrev pub value : List ℕ → ℕ
value [] = 0
value (b ∷ bs) = b + 256 * value bs

-- The fields of an entry, from its 64 bits.
unfoldable pub fields : ℕ → PagemapEntry
fields bits = record {
  pfn = bits % 2 ^ 55;
  soft_dirty = bits / 2 ^ 55 % 2;
  file_page = bits / 2 ^ 61 % 2;
  swapped = bits / 2 ^ 62 % 2;
  present = bits / 2 ^ 63 % 2;
}

-- `sysconf(_SC_PAGE_SIZE)`
abbrev pub page_size : ℕ
page_size = 4096

-- `(vaddr / sysconf(_SC_PAGE_SIZE)) * sizeof(data)`
abbrev pub offset_of : ℕ → ℕ
offset_of vaddr = vaddr / page_size * 8

-- How a loop of reads ends.
pub data Read : Type 0 where
  complete : List ℕ → Read
  failed : Read
  out_of_fuel : Read

module _ (pread : (count offset : ℕ) → ℤ) (file : List ℕ) where
  -- The bytes that a read of `k` bytes copies.
  abbrev pub copied : (k offset : ℕ) → List ℕ
  copied k offset = take k (drop offset file)

  -- `while (nread < sizeof(data))`, where `data` are the bytes read so far.
  unfoldable pub read_data : (fuel : ℕ) → (offset nread : ℕ) → (data_bytes : List ℕ) → Read
  read_data zero offset nread data_bytes = out_of_fuel
  read_data (suc k) offset nread data_bytes =
      if ltb nread 8
      then elim (pread (8 - nread) (offset + nread)) [
        | negsuc e ↦ failed
        | pos zero ↦ failed
        | pos (suc n) ↦
            read_data k offset (nread + suc n) (data_bytes ++ copied (suc n) (offset + nread))
      ]
      else complete data_bytes

  -- `pagemap_get_entry`: its value, and the entry if it was set. Nine rounds are enough.
  unfoldable pub pagemap_get_entry : (vaddr : ℕ) → Option (ℕ × Option PagemapEntry)
  unfolding read_data fields
  pagemap_get_entry vaddr = elim (read_data 9 (offset_of vaddr) 0 []) [
    | complete data_bytes ↦ some (0, some (fields (value data_bytes)))
    | failed ↦ some (1, none)
    | out_of_fuel ↦ none
  ]

-- What `virt_to_phys_user` gives: its value, `*paddr` if it was set, and whether its descriptor of
-- the page map is still open.
pub record Physical : Type 0 where
  pub ret : ℕ
  pub paddr : Option ℕ
  pub left_open : Bool

-- `(entry.pfn * sysconf(_SC_PAGE_SIZE)) + (vaddr % sysconf(_SC_PAGE_SIZE))`, in 64 bits.
abbrev pub physical : PagemapEntry → ℕ → ℕ
physical e vaddr = (e.pfn * page_size + vaddr % page_size) % 2 ^ 64

abbrev pub physical_of : ℕ → Option (ℕ × Option PagemapEntry) → Option Physical
physical_of vaddr none = none
physical_of vaddr (some (zero, some e)) =
    some (record { ret = 0; paddr = some (physical e vaddr); left_open = false })
physical_of vaddr (some (ret, entry)) = some (record { ret = 1; paddr = none; left_open = true })

-- `virt_to_phys_user`, where the page map may not open.
unfoldable pub virt_to_phys_user : ((count offset : ℕ) → ℤ) → Option (List ℕ) → ℕ → Option Physical
virt_to_phys_user pread none vaddr = some (record { ret = 1; paddr = none; left_open = false })
virt_to_phys_user pread (some file) vaddr = physical_of vaddr (pagemap_get_entry pread file vaddr)
