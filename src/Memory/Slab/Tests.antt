-- ===== src/Memory/Slab/Tests.antt =====
-- The theorems on the slab allocator, at a heap with one free page.
use solstice_os.Base.{some, ◌%◌, ◌+◌, ℕ, ◌≡◌, refl, [], ◌∷◌, arith, if◌then◌else◌, ◌==◌, ◌≢◌}
use solstice_os.Memory.Pmm.{Pmm}
use solstice_os.Memory.Pmm.Chain.{IsFree}
use solstice_os.Memory.Slab.{undefined, Kheap, returned, memory, kmalloc, kfree}
use solstice_os.Memory.Slab.Slots.{IsSlab, Took, kfree-Took}
use solstice_os.Memory.Slab.Worn.{allocs, kmalloc_small_undefined}
use solstice_os.Memory.Slab.Alloc.{size_of, Result, kmalloc-Result}

abbrev pages : Pmm
pages = record { mem = λ a. 0; head = 0x200000; total = 1 }

abbrev fresh : Kheap
fresh = record { pmm = pages; object_size = size_of; first_slab = λ i. 0 }

fresh-IsFree : IsFree pages (0x200000 ∷ [])
fresh-IsFree = ground arith

kmalloc-Result_example : Result fresh 100 (0x200000 ∷ []) (kmalloc 1 100 fresh)
kmalloc-Result_example =
    kmalloc-Result 1 100 fresh (λ i. []) (0x200000 ∷ []) (omega arith) (omega arith) (λ i. refl)
      (λ i. refl) (λ i. omega arith) fresh-IsFree (omega arith)

-- A slab of 128-byte slots with the first two taken.
abbrev cells : ℕ → ℕ
cells a = if a == 0x200000 then 3 else if a == 0x200010 then 29 else if a == 0x200018 then 2 else 0

abbrev heap : Kheap
heap = record {
  pmm = record { mem = cells; head = 0; total = 0 };
  object_size = size_of;
  first_slab = λ i. if i == 2 then 0x200000 else 0;
}

heap-IsSlab : IsSlab heap 2 0x200000
heap-IsSlab = omega arith

abbrev after : Kheap
after = record {
  pmm = record {
    mem = λ a. if a == 0x200000 then 7 else if a == 0x200010 then 28 else cells a;
    head = 0;
    total = 0;
  };
  object_size = size_of;
  first_slab = λ i. if i == 2 then 0x200000 else 0;
}

heap-Took : Took heap 2 0x200000 2 0x200120 after
heap-Took = record {
  was_free = refl;
  below = omega arith;
  address = refl;
  inside = omega arith;
  bitmap = refl;
  one_less = refl;
  others = λ a p q. ground arith;
  same_caches = (refl, refl);
}

kfree-Took_example :
    (h'' : Kheap) × (kfree 0x200120 after ≡ returned 0 h'')
    × (memory h'' 0x200000 ≡ 3)
    × (memory h'' 0x200010 ≡ 29)
    × ((a : ℕ) → a ≢ 0x200000 → a ≢ 0x200010 → memory h'' a ≡ cells a)
kfree-Took_example = kfree-Took (omega arith) heap-IsSlab heap-Took

kmalloc_small_undefined_example :
    (h' : Kheap) × (allocs 1 64 (λ i. 1 + i % 32) fresh ≡ some h')
    × (memory h' 0x200010 ≡ 63)
    × (kmalloc 1 1 h' ≡ undefined)
kmalloc_small_undefined_example =
    kmalloc_small_undefined 0 0x200000 [] (λ i. 1 + i % 32) fresh (λ i. omega arith) refl refl
      fresh-IsFree (omega arith) (omega arith)
