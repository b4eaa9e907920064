-- ===== src/Memory/Slab.antt =====
-- The slab allocator of src/kernel/memory/memory.cpp. A slab is one page: a header of four fields
-- (`bitmap`, `next`, `free_slots`, `cache`) in its first 32 bytes, and equal slots behind it. The
-- headers lie in the memory of the page allocator, one cell for each field. A `KmemCache*` is the
-- index of the cache in `kmem_caches`.
pub mod Slots
pub mod Alloc
pub mod Limits
pub mod Worn
mod Tests
use Prim.Native.Nat.{bit_and, bit_or}
use solstice_os.Base.{
  ℕ, zero, suc, ◌+◌, ◌-◌, ◌*◌, ◌/◌, ◌%◌, ◌^◌, Bool, true, false, ◌&&◌, not, Option, none, some,
  List, [], ◌∷◌, if◌then◌else◌, ltb, leb, ◌==◌, get_or,
}
use solstice_os.Base.Store.{update}
use solstice_os.Base.Bits.{lowest_set}
use solstice_os.Memory.Pmm.{Pmm, pmm_alloc}

pub record Kheap : Type 0 where
  pub pmm : Pmm
  pub object_size : ℕ → ℕ
  pub first_slab : ℕ → ℕ

abbrev pub num_caches : ℕ
num_caches = 9

abbrev pub header_size : ℕ
header_size = 32

-- The addresses of the header's fields. `bitmap` is the first.
abbrev pub next_at : ℕ → ℕ
next_at slab = slab + 8

abbrev pub free_slots_at : ℕ → ℕ
free_slots_at slab = slab + 16

abbrev pub cache_at : ℕ → ℕ
cache_at slab = slab + 24

abbrev pub memory : Kheap → ℕ → ℕ
memory h = h.pmm.mem

abbrev pub with_memory : Kheap → (ℕ → ℕ) → Kheap
with_memory h mem = record h { pmm = record (h.pmm) { mem = mem } }

-- `undefined` is `__builtin_ctzll(0)`, or a shift by 64 or more.
pub data Outcome : Type 0 where
  returned : ℕ → Kheap → Outcome
  undefined out_of_fuel : Outcome

abbrev pub sizes : List ℕ
sizes = 32 ∷ 64 ∷ 128 ∷ 256 ∷ 512 ∷ 1024 ∷ 2048 ∷ 5096 ∷ 10192 ∷ []

unfoldable pub init_kmalloc : Kheap → Kheap
init_kmalloc h = record {
  pmm = h.pmm;
  object_size = λ i. if ltb i num_caches then get_or sizes i 0 else h.object_size i;
  first_slab = λ i. if ltb i num_caches then 0 else h.first_slab i;
}

-- The loop over the caches: the first whose objects are large enough.
pub find_cache : (ℕ → ℕ) → (left i target : ℕ) → Option ℕ
find_cache size zero i target = none
find_cache size (suc left) i target =
    let rest = find_cache size left (i + 1) target in if leb target (size i) then some i else rest

-- The walk to the first slab with a free slot; 0 if there is none.
pub find_slab : (fuel : ℕ) → (ℕ → ℕ) → ℕ → Option ℕ
find_slab zero mem slab = none
find_slab (suc fuel) mem slab =
    let rest = find_slab fuel mem (mem (next_at slab)) in
    if slab == 0 then some 0 else if mem (free_slots_at slab) == 0 then rest else some slab

-- The header that a new slab gets, and the cache's list with the slab in front.
pub new_slab : (cache slab : ℕ) → Kheap → Kheap
new_slab cache slab h =
    let free_slots = (4096 - header_size) / h.object_size cache in
    let m₁ = update (memory h) slab 0 in
    let m₂ = update m₁ (free_slots_at slab) free_slots in
    let m₃ = update m₂ (next_at slab) (h.first_slab cache) in
    let m₄ = update m₃ (cache_at slab) cache in
    record (with_memory h m₄) { first_slab = update h.first_slab cache slab }

-- `free_slots--` and `bitmap |= 1 << slot`.
pub mark_slot : (slab slot : ℕ) → Kheap → Kheap
mark_slot slab slot h =
    let left = (memory h (free_slots_at slab) + 2 ^ 32 - 1) % 2 ^ 32 in
    let m₁ = update (memory h) (free_slots_at slab) left in
    with_memory h (update m₁ slab (bit_or (m₁ slab) (2 ^ slot)))

-- The bitmap's lowest clear bit is taken, as `__builtin_ctzll(~bitmap)` finds it.
pub take_slot : (cache slab : ℕ) → Kheap → Outcome
take_slot cache slab h = elim (lowest_set 64 (2 ^ 64 - 1 - memory h slab)) [
  | none ↦ undefined
  | some slot ↦
      returned ((slab + header_size + slot * h.object_size cache % 2 ^ 32) % 2 ^ 64)
        (mark_slot slab slot h)
]

-- A new slab for a cache with no free slot; a null pointer where no page is left.
pub grow : (cache : ℕ) → Kheap → Outcome
grow cache h =
    let (page, pmm') = pmm_alloc h.pmm in
    if page == 0
    then returned 0 (record h { pmm = pmm' })
    else take_slot cache page (new_slab cache page (record h { pmm = pmm' }))

-- The body of `kmalloc` for the cache that fits: `found` is where the walk over its slabs ended.
pub alloc_from : (cache found : ℕ) → Kheap → Outcome
alloc_from cache found h = if found == 0 then grow cache h else take_slot cache found h

pub walk : (fuel cache : ℕ) → Kheap → Outcome
walk fuel cache h = elim (find_slab fuel (memory h) (h.first_slab cache)) [
  | none ↦ out_of_fuel
  | some found ↦ alloc_from cache found h
]

pub kmalloc : (fuel target : ℕ) → Kheap → Outcome
kmalloc fuel target h =
    if target == 0 then returned 0 h else elim (find_cache h.object_size num_caches 0 target) [
      | none ↦ returned 0 h
      | some cache ↦ walk fuel cache h
    ]

-- `bitmap &= ~(1 << slot)` and `free_slots++`.
pub release_slot : (slab slot : ℕ) → Kheap → Kheap
release_slot slab slot h =
    let m₁ = update (memory h) slab (bit_and (memory h slab) (2 ^ 64 - 1 - 2 ^ slot)) in
    with_memory h (update m₁ (free_slots_at slab) ((m₁ (free_slots_at slab) + 1) % 2 ^ 32))

-- The header is at the start of the pointer's page.
pub kfree : ℕ → Kheap → Outcome
kfree ptr h =
    let slab = ptr / 4096 * 4096 in
    let byte_offset = (ptr + 2 ^ 64 - (slab + header_size)) % 2 ^ 64 in
    let slot = byte_offset / h.object_size (memory h (cache_at slab)) in
    if ptr == 0
    then returned 0 h
    else if ltb slot 64
    then returned 0 (release_slot slab slot h)
    else undefined
