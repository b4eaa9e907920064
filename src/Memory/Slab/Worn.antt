-- ===== src/Memory/Slab/Worn.antt =====
-- `kmalloc` of src/kernel/memory/memory.cpp at the smallest objects: a page has 127 slots of 32 bytes for
-- the 64 bits of a bitmap.
use native.Mathlib.Nat.{pow-suc, one-le-pow}
use solstice_os.Base.{
  if◌then◌else◌, ℕ, zero, suc, ◌+◌, ◌-◌, ◌*◌, ◌/◌, ◌%◌, ◌^◌, ◌≤◌, ◌<◌, ◌≡◌, refl, ◌∙◌, ap, Option,
  none, some, arith, false, ◌==◌, List, ◌∷◌,
}
use solstice_os.Base.Bits.{lowest_set, bit, or-two_pow, pow_mono}
use solstice_os.Memory.Pmm.{pmm_alloc}
use solstice_os.Memory.Pmm.Chain.{IsFree, alloc-cons}
use solstice_os.Memory.Slab.{
  bit_or, Kheap, memory, free_slots_at, returned, undefined, out_of_fuel, num_caches, find_cache,
  find_slab, new_slab, take_slot, mark_slot, grow, alloc_from, kmalloc,
}
use solstice_os.Memory.Slab.Limits.{kmalloc_walks, no_set_bit}

-- The word of which just the bits from `n` on are clear.
lowest_clear : (m n : ℕ) → n < m → lowest_set m (2 ^ m - 1 - (2 ^ n - 1)) ≡ some n
unfolding lowest_set
lowest_clear zero n less = absurd (omega arith)
lowest_clear (suc m) zero less =
    let odd : (2 ^ suc m - 1 - 0) % 2 ≡ 1 = omega (arith, pow-suc 2 m, one-le-pow m 2) in
    ground (arith, odd)
lowest_clear (suc m) (suc n) less =
    let le = pow_mono (suc n) (suc m) (omega arith) in
    let even : (2 ^ suc m - 1 - (2 ^ suc n - 1)) % 2 ≡ 0 =
      omega (arith, pow-suc 2 m, pow-suc 2 n, le, one-le-pow n 2) in
    let half : (2 ^ suc m - 1 - (2 ^ suc n - 1)) / 2 ≡ 2 ^ m - 1 - (2 ^ n - 1) =
      omega (arith, pow-suc 2 m, pow-suc 2 n, le, one-le-pow n 2) in
    ground (arith, even, half, lowest_clear m n (omega arith))

bit_above : (k a : ℕ) → a < 2 ^ k → bit k a ≡ 0
bit_above zero a less = omega arith
bit_above (suc k) a less = bit_above k (a / 2) (omega (arith, pow-suc 2 k))

or_next : (n : ℕ) → bit_or (2 ^ n - 1) (2 ^ n) ≡ 2 ^ suc n - 1
or_next n =
    let some_weight = one-le-pow n 2 in
    let clear = bit_above n (2 ^ n - 1) (omega (arith, some_weight)) in
    ground (arith, or-two_pow n (2 ^ n - 1), clear, pow-suc 2 n, some_weight)

-- The cache of the smallest objects has the slab `page`, of which the first `n` slots are taken.
record Worn (page n : ℕ) (h : Kheap) : Type 0 where
  size : h.object_size 0 ≡ 32
  first : h.first_slab 0 ≡ page
  marked : memory h page ≡ 2 ^ n - 1
  left : memory h (free_slots_at page) + n ≡ 127

take_slot-Worn :
    (page n : ℕ) (h : Kheap)
    → page + 4096 ≤ 2 ^ 64
    → n < 64
    → Worn page n h
    → (take_slot 0 page h ≡ returned (page + 32 + 32 * n) (mark_slot page n h))
      × Worn page (suc n) (mark_slot page n h)
unfolding take_slot mark_slot
take_slot-Worn page n h top less w =
    let clear : lowest_set 64 (2 ^ 64 - 1 - memory h page) ≡ some n =
      ap (λ (a : ℕ). lowest_set 64 (2 ^ 64 - 1 - a)) w.marked ∙ lowest_clear 64 n less in
    let at : (page + 32 + n * 32 % 2 ^ 32) % 2 ^ 64 ≡ page + 32 + 32 * n =
      omega (arith, top, less) in
    (
      rw (clear, take_slot, w.size, at) refl,
      record {
        size = w.size;
        first = w.first;
        marked = ground (arith, w.marked, or_next n);
        left = ground (arith, w.left, less);
      },
    )

-- `n` requests one after the other, each for a size of its own; none as soon as one is not served.
abbrev pub allocs : (fuel n : ℕ) → (targets : ℕ → ℕ) → Kheap → Option Kheap
allocs fuel zero targets h = some h
allocs fuel (suc n) targets h = elim (allocs fuel n targets h) [
  | none ↦ none
  | some h' ↦ elim (kmalloc fuel (targets n) h') [
    | returned ptr h'' ↦ if ptr == 0 then none else some h''
    | undefined ↦ none
    | out_of_fuel ↦ none
  ]
]

allocs_next :
    (fuel n : ℕ) (targets : ℕ → ℕ) (h h' : Kheap) (ptr : ℕ) (h'' : Kheap)
    → allocs fuel n targets h ≡ some h'
    → kmalloc fuel (targets n) h' ≡ returned ptr h''
    → 0 < ptr
    → allocs fuel (suc n) targets h ≡ some h''
allocs_next fuel n targets h h' ptr h'' before call some_ptr =
    let there : (ptr == 0) ≡ false = ground arith in rw (before, call, there) refl

module _ (fuel page : ℕ) (frames : List ℕ) (targets : ℕ → ℕ) (h : Kheap)
    (sized : (i : ℕ) → (0 < targets i) × (targets i ≤ 32)) (size : h.object_size 0 ≡ 32)
    (no_slab : h.first_slab 0 ≡ 0) (free : IsFree h.pmm (page ∷ frames)) (some_page : 0 < page)
    (top : page + 4096 ≤ 2 ^ 64) where
  looked :
      (h' : Kheap) (i : ℕ)
      → h'.object_size 0 ≡ 32
      → find_cache h'.object_size num_caches 0 (targets i) ≡ some 0
  unfolding find_cache
  looked h' i same = ground (arith, same, sized i)

  first-Worn : (h' : Kheap) × (allocs (suc fuel) 1 targets h ≡ some h') × Worn page 1 h'
  unfolding alloc_from grow new_slab
  first-Worn =
      let got = alloc-cons h.pmm page frames free in
      let after = record h { pmm = (pmm_alloc h.pmm).1 } in
      let fresh : Worn page 0 (new_slab 0 page after) = record {
        size = size;
        first = ground arith;
        marked = ground arith;
        left = ground (arith, size);
      } in
      let (e, w) = take_slot-Worn page 0 (new_slab 0 page after) top (omega arith) fresh in
      let found : find_slab (suc fuel) (memory h) (h.first_slab 0) ≡ some 0 =
        unfold find_slab in ground arith in
      let here : (page == 0) ≡ false = ground arith in
      let call : kmalloc (suc fuel) (targets 0) h
          ≡ returned (page + 32 + 32 * 0) (mark_slot page 0 (new_slab 0 page after)) =
        kmalloc_walks (suc fuel) (targets 0) 0 0 h (sized 0).0 (looked h 0 size) found
        ∙ rw (got.0, here) e in
      (_, allocs_next (suc fuel) 0 targets h h _ _ refl call (omega arith), w)

  -- A request, while `free_slots` is not 0, is for the slab that is there.
  for_slab :
      (n i : ℕ) (h' : Kheap)
      → Worn page n h'
      → n ≤ 64
      → kmalloc (suc fuel) (targets i) h' ≡ take_slot 0 page h'
  unfolding alloc_from
  for_slab n i h' w less =
      let found : find_slab (suc fuel) (memory h') (h'.first_slab 0) ≡ some page =
        unfold find_slab in ground (arith, w.first, w.left) in
      let here : (page == 0) ≡ false = ground arith in
      kmalloc_walks (suc fuel) (targets i) 0 page h' (sized i).0 (looked h' i w.size) found
      ∙ rw here refl

  next-Worn :
      (n : ℕ)
      → n < 64
      → (h' : Kheap) × (allocs (suc fuel) (suc n) targets h ≡ some h') × Worn page (suc n) h'
  next-Worn zero less = first-Worn
  next-Worn (suc n) less =
      let (h', before, w) = next-Worn n (omega arith) in
      let (e, w') = take_slot-Worn page (suc n) h' top less w in
      let call = for_slab (suc n) (suc n) h' w (omega arith) ∙ e in
      (
        mark_slot page (suc n) h',
        allocs_next (suc fuel) (suc n) targets h h' _ _ before call (omega arith),
        w',
      )

  -- On a heap whose cache for the smallest objects, of 32 bytes, has no slab yet, and with a free page:
  -- 64 requests for 1 to 32 bytes in a row are all served, and the next one evaluates
  -- `__builtin_ctzll(0)`, which is undefined, though 63 of the 127 slots are free.
  pub kmalloc_small_undefined :
      (h' : Kheap) × (allocs (suc fuel) 64 targets h ≡ some h')
      × (memory h' (free_slots_at page) ≡ 63)
      × (kmalloc (suc fuel) (targets 64) h' ≡ undefined)
  unfolding take_slot
  kmalloc_small_undefined =
      let (h', served, w) = next-Worn 63 (omega arith) in
      let full : lowest_set 64 (2 ^ 64 - 1 - memory h' page) ≡ none =
        ap (λ (a : ℕ). lowest_set 64 (2 ^ 64 - 1 - a)) w.marked ∙ no_set_bit in
      (
        h',
        served,
        omega (arith, w.left),
        for_slab 64 64 h' w (omega arith) ∙ rw (full, take_slot) refl,
      )
