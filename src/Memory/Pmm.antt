-- ===== src/Memory/Pmm.antt =====
-- The physical page allocator of src/kernel/memory/memory.cpp. Free frames are linked through
-- their first word, so the list lives in the memory that it manages. An address is a number, a null
-- pointer is 0, and `size_t` arithmetic wraps at 2 ^ 64.
pub mod Chain
pub mod Pages
pub mod Init
mod Tests
use solstice_os.Base.{
  ℕ, zero, suc, ◌+◌, ◌-◌, ◌*◌, ◌/◌, ◌%◌, ◌^◌, Bool, true, false, if◌then◌else◌, ltb, ◌==◌, List,
}
use solstice_os.Base.Store.{update}

-- `mem` holds the 64-bit cell at each address. `head` is `free_list_head`, and `total` is
-- `total_free_pages`.
pub record Pmm : Type 0 where
  pub mem : ℕ → ℕ
  pub head : ℕ
  pub total : ℕ

-- The `next` field of a `free_page` is the first word of its frame.
unfoldable pub pmm_alloc : Pmm → ℕ × Pmm
pmm_alloc s =
    if s.head == 0
    then (0, s)
    else (s.head, record s { head = s.mem s.head; total = (s.total + 2 ^ 64 - 1) % 2 ^ 64 })

pub pmm_free : ℕ → Pmm → Pmm
pmm_free ptr s = record {
  mem = update s.mem ptr s.head;
  head = ptr;
  total = (s.total + 1) % 2 ^ 64;
}

-- The loop of `pmm_alloc_pages` with `left` rounds to go.
alloc_rest : (left first : ℕ) → Pmm → ℕ × Pmm
alloc_rest zero first s = (first, s)
alloc_rest (suc left) first s =
    let (page, s') = pmm_alloc s in
    let rest = alloc_rest left first s' in if page == 0 then (0, s') else rest

pub pmm_alloc_pages : ℕ → Pmm → ℕ × Pmm
unfolding alloc_rest pmm_alloc
pmm_alloc_pages count s =
    let (first, s') = pmm_alloc s in
    let rest = alloc_rest (count - 1) first s' in
    if count == 0 then (0, s) else if first == 0 then (0, s') else rest

-- The fields of a `MemMapDescriptor` that the kernel reads.
pub record MemMapDescriptor : Type 0 where
  pub type : ℕ
  pub physical_start : ℕ
  pub number_of_pages : ℕ

abbrev pub mem_type_conventional : ℕ
mem_type_conventional = 7

abbrev pub mem_map : ℕ
mem_map = 0x80000

-- Everything below 2 MB is reserved.
abbrev pub reserved_end : ℕ
reserved_end = 0x200000

-- The address of page `j` of a region.
abbrev pub page_address : MemMapDescriptor → ℕ → ℕ
page_address d j = (d.physical_start + j * 4096) % 2 ^ 64

-- The loop over the pages of one region, at page `j` with `left` pages to go.
free_region : MemMapDescriptor → (left j : ℕ) → Pmm → Pmm
free_region d zero j s = s
free_region d (suc left) j s =
    free_region d left (j + 1)
      (if ltb (page_address d j) reserved_end then s else pmm_free (page_address d j) s)

-- The loop over the descriptors. `desc_at` reads the copy of the UEFI map, which lies below 2 MB,
-- where no frame is freed.
free_regions : (ℕ → MemMapDescriptor) → ℕ → (left i : ℕ) → Pmm → Pmm
unfolding free_region
free_regions desc_at desc_size zero i s = s
free_regions desc_at desc_size (suc left) i s =
    let d = desc_at (mem_map + i * desc_size % 2 ^ 32) in
    free_regions desc_at desc_size left (i + 1)
      (if d.type == mem_type_conventional then free_region d d.number_of_pages 0 s else s)

unfoldable pub init_pmm : (ℕ → MemMapDescriptor) → (map_size desc_size : ℕ) → Pmm → Pmm
unfolding free_regions pmm_free
init_pmm desc_at map_size desc_size s =
    if desc_size == 0 then s else free_regions desc_at desc_size (map_size / desc_size) 0 s
