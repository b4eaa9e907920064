-- ===== src/Memory/Slab/Limits.antt =====
-- `kmalloc` at the sizes where a page's slots and the 64-bit bitmap do not agree: the first cache
-- has 127 slots of 32 bytes for 64 bits, and the last two have objects larger than a page.
use solstice_os.Base.{
  ℕ, suc, ◌+◌, ◌-◌, ◌^◌, ◌≤◌, ◌<◌, ◌≡◌, ◌≢◌, refl, ◌∙◌, none, some, arith, false, ◌==◌, List, ◌∷◌,
}
use solstice_os.Base.Bits.{lowest_set}
use solstice_os.Memory.Pmm.{pmm_alloc}
use solstice_os.Memory.Pmm.Chain.{IsFree, alloc-cons}
use solstice_os.Memory.Slab.{
  Kheap, memory, header_size, returned, num_caches, find_cache, find_slab, new_slab, take_slot,
  mark_slot, grow, alloc_from, walk, kmalloc,
}

pub no_set_bit : lowest_set 64 0 ≡ none
unfolding lowest_set
no_set_bit = refl

first_set_bit : lowest_set 64 (2 ^ 64 - 1 - 0) ≡ some 0
unfolding lowest_set
first_set_bit = refl

pub kmalloc_walks :
    (fuel target cache found : ℕ) (h : Kheap)
    → 0 < target
    → find_cache h.object_size num_caches 0 target ≡ some cache
    → find_slab fuel (memory h) (h.first_slab cache) ≡ some found
    → kmalloc fuel target h ≡ alloc_from cache found h
unfolding kmalloc walk
kmalloc_walks fuel target cache found h pos looked e =
    let positive : (target == 0) ≡ false = ground arith in
    rw (positive, looked, kmalloc, e, walk) refl

take_first :
    (cache slab : ℕ) (h : Kheap)
    → memory h slab ≡ 0
    → slab + header_size < 2 ^ 64
    → (h' : Kheap) × (take_slot cache slab h ≡ returned (slab + header_size) h')
unfolding take_slot
take_first cache slab h clear top = (mark_slot slab 0 h, ground (arith, clear, first_set_bit))

-- A request that no page can hold, of more than 4064 and at most 10192 bytes, is served all the
-- same when its cache has no slab: with a pointer to the end of which the new page does not reach.
pub kmalloc_over_page :
    (fuel target cache page : ℕ) (h : Kheap) (frames : List ℕ)
    → 4064 < target
    → find_cache h.object_size num_caches 0 target ≡ some cache
    → h.first_slab cache ≡ 0
    → IsFree h.pmm (page ∷ frames)
    → page ≢ 0
    → page + 4096 ≤ 2 ^ 64
    → (ptr : ℕ) × (h' : Kheap) × (kmalloc (suc fuel) target h ≡ returned ptr h')
      × (page < ptr)
      × (page + 4096 < ptr + target)
unfolding alloc_from grow
kmalloc_over_page fuel target cache page h frames large looked first free ne top =
    let got = alloc-cons h.pmm page frames free in
    let found : find_slab (suc fuel) (memory h) (h.first_slab cache) ≡ some 0 =
      unfold find_slab in ground arith in
    let here : ((pmm_alloc h.pmm).0 == 0) ≡ false = ground arith in
    let after = record h { pmm = (pmm_alloc h.pmm).1 } in
    let (h', e) =
      take_first cache (pmm_alloc h.pmm).0 (new_slab cache (pmm_alloc h.pmm).0 after)
        (unfold new_slab in ground arith) (ground arith) in
    (
      (pmm_alloc h.pmm).0 + header_size,
      h',
      kmalloc_walks (suc fuel) target cache 0 h (omega arith) looked found ∙ rw here e,
      ground arith,
      ground arith,
    )
