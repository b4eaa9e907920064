-- ===== src/Memory/Pmm/Init.antt =====
-- `init_pmm` of src/kernel/memory/memory.cpp: which frames are free after it.
use mathlib.Core.List.{reverse_aux}
use solstice_os.Base.{
  ℕ, zero, suc, ◌+◌, ◌*◌, ◌/◌, ◌%◌, ◌^◌, ◌<◌, ◌≡◌, ◌≢◌, refl, ◌∙◌, false, List, [], ◌∷◌, ◌++◌,
  arith, length, ltb, ◌==◌, if◌then◌else◌, Bool-cases, inl, inr,
}
use solstice_os.Memory.Pmm.{
  Pmm, pmm_free, MemMapDescriptor, mem_map, mem_type_conventional, reserved_end, page_address,
  free_region, free_regions, init_pmm,
}
use solstice_os.Memory.Pmm.Chain.{IsFree, has, IsFree-cons}

-- The pages of a region from page `j` on that lie at 2 MB or above.
abbrev pub region_pages : MemMapDescriptor → (left j : ℕ) → List ℕ
region_pages d zero j = []
region_pages d (suc left) j =
    if ltb (page_address d j) reserved_end
    then region_pages d left (j + 1)
    else page_address d j ∷ region_pages d left (j + 1)

-- The pages that the memory map calls usable, in its order.
abbrev pub usable : (ℕ → MemMapDescriptor) → ℕ → (left i : ℕ) → List ℕ
usable desc_at desc_size zero i = []
usable desc_at desc_size (suc left) i =
    (if (desc_at (mem_map + i * desc_size % 2 ^ 32)).type == mem_type_conventional
      then region_pages (desc_at (mem_map + i * desc_size % 2 ^ 32))
          (desc_at (mem_map + i * desc_size % 2 ^ 32)).number_of_pages 0
      else [])
    ++ usable desc_at desc_size left (i + 1)

free_all : List ℕ → Pmm → Pmm
free_all [] s = s
free_all (a ∷ as') s = free_all as' (pmm_free a s)

free_all-append :
    (as' bs : List ℕ) (s : Pmm) → free_all (as' ++ bs) s ≡ free_all bs (free_all as' s)
unfolding free_all
free_all-append [] bs s = refl
free_all-append (a ∷ as') bs s = free_all-append as' bs (pmm_free a s)

region_free_all :
    (d : MemMapDescriptor) (left j : ℕ) (s : Pmm)
    → free_region d left j s ≡ free_all (region_pages d left j) s
unfolding free_region free_all
region_free_all d zero j s = refl
region_free_all d (suc left) j s = elim (Bool-cases (ltb (page_address d j) reserved_end)) [
  | inl low ↦ rw low (region_free_all d left (j + 1) s)
  | inr high ↦ rw high (region_free_all d left (j + 1) (pmm_free (page_address d j) s))
]

regions_free_all :
    (desc_at : ℕ → MemMapDescriptor) (desc_size left i : ℕ) (s : Pmm)
    → free_regions desc_at desc_size left i s ≡ free_all (usable desc_at desc_size left i) s
unfolding free_regions
regions_free_all desc_at desc_size zero i s = unfold free_all in refl
regions_free_all desc_at desc_size (suc left) i s =
    let d = desc_at (mem_map + i * desc_size % 2 ^ 32) in
    elim (Bool-cases (d.type == mem_type_conventional)) [
      | inl use_it ↦
          rw (use_it, region_free_all d d.number_of_pages 0 s)
            (regions_free_all desc_at desc_size left (i + 1)
                (free_all (region_pages d d.number_of_pages 0) s)
              ∙ (rw (
                  free_all-append (region_pages d d.number_of_pages 0)
                    (usable desc_at desc_size left (i + 1)) s)))
      | inr skip ↦ rw skip (regions_free_all desc_at desc_size left (i + 1) s)
    ]

-- The frames `new`, freed in this order, differ from one another and from those of `old`.
abbrev pub Fresh : List ℕ → List ℕ → Type 0
Fresh [] old = Unit {0}
Fresh (a ∷ new) old = (a ≢ 0) × (has a old ≡ false) × Fresh new (a ∷ old)

free_all-IsFree :
    (s : Pmm) (new old : List ℕ)
    → IsFree s old
    → Fresh new old
    → length new + length old < 2 ^ 64
    → IsFree (free_all new s) (reverse_aux new old)
unfolding free_all
free_all-IsFree s [] old f fresh room = f
free_all-IsFree s (a ∷ new) old f fresh room =
    free_all-IsFree (pmm_free a s) new (a ∷ old)
      (IsFree-cons s a old f fresh.0 fresh.1 (omega arith)) fresh.2 (omega arith)

-- After `init_pmm` on an empty allocator, the free list holds every conventional page at 2 MB or
-- above, and no other, the last of the memory map in front, and `total_free_pages` counts them;
-- provided that the map lists no page twice and fewer than 2 ^ 64 of them.
pub init_pmm-IsFree :
    (desc_at : ℕ → MemMapDescriptor) (map_size desc_size : ℕ) (s : Pmm)
    → IsFree s []
    → 0 < desc_size
    → Fresh (usable desc_at desc_size (map_size / desc_size) 0) []
    → length (usable desc_at desc_size (map_size / desc_size) 0) < 2 ^ 64
    → IsFree
        (init_pmm desc_at map_size desc_size s)
        (reverse_aux (usable desc_at desc_size (map_size / desc_size) 0) [])
unfolding init_pmm
init_pmm-IsFree desc_at map_size desc_size s f pos fresh room =
    let some_size : (desc_size == 0) ≡ false = ground arith in
    rw (some_size, regions_free_all desc_at desc_size (map_size / desc_size) 0 s)
      (free_all-IsFree s (usable desc_at desc_size (map_size / desc_size) 0) [] f fresh
        (omega arith))
