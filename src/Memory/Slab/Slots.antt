-- ===== src/Memory/Slab/Slots.antt =====
-- One slab: its header describes its slots, and what `kmalloc` and `kfree` do to it.
use solstice_os.Base.{
  ltb, ◌==◌, ◌*◌, true, false, ◌∙◌, ap, ℕ, ◌+◌, ◌-◌, ◌*◌, ◌/◌, ◌%◌, ◌^◌, ◌≤◌, ◌<◌, ◌≡◌, ◌≢◌, refl,
  arith,
}
use solstice_os.Base.Bits.{
  pow_mono, ones-add, add-lt, bit, ones, ones-le, or-two_pow, lowest_set-complement,
}
use solstice_os.Base.Masks.{clear-add}
use solstice_os.Memory.Slab.{
  mark_slot, release_slot, kfree, Kheap, memory, header_size, free_slots_at, cache_at, returned,
  take_slot,
}

-- How many slots of a size a page holds behind the header.
abbrev pub capacity : ℕ → ℕ
capacity size = (4096 - header_size) / size

-- The slab is a page of its cache, only real slots are marked in its bitmap, and `free_slots`
-- counts the others.
pub record IsSlab (h : Kheap) (cache slab : ℕ) : Type 0 where
  pub aligned : slab % 4096 ≡ 0
  pub nonzero : 0 < slab
  pub top : slab + 4096 ≤ 2 ^ 64
  pub owner : memory h (cache_at slab) ≡ cache
  pub marked : memory h slab < 2 ^ capacity (h.object_size cache)
  pub counted :
      memory h (free_slots_at slab) + ones (capacity (h.object_size cache)) (memory h slab)
      ≡ capacity (h.object_size cache)

-- The sizes for which a page's slots fit the 64-bit bitmap: all but the first and the last two.
abbrev pub Fits : ℕ → Type 0
Fits size = (64 ≤ size) × (size ≤ 2048)

pub capacity-le : (size : ℕ) → Fits size → (capacity size ≤ 63) × (0 < capacity size)
capacity-le size f = grind arith

mul_div : (k n : ℕ) → 0 < n → k * n / n ≡ k
mul_div k n h = grind arith

slot_end : (size k : ℕ) → Fits size → k < capacity size → k * size + size ≤ 4064
slot_end size k f h = grind arith

-- What taking slot `k` of a slab does: the slot was free, its bytes lie within the page, the result
-- is the slot's address, the slot is marked, one less is free, and no other cell changes.
pub record Took (h : Kheap) (cache slab k ptr : ℕ) (h' : Kheap) : Type 0 where
  pub was_free : bit k (memory h slab) ≡ 0
  pub below : k < capacity (h.object_size cache)
  pub address : ptr ≡ slab + header_size + k * h.object_size cache
  pub inside : ptr + h.object_size cache ≤ slab + 4096
  pub bitmap : memory h' slab ≡ memory h slab + 2 ^ k
  pub one_less : memory h' (free_slots_at slab) + 1 ≡ memory h (free_slots_at slab)
  pub others : (a : ℕ) → a ≢ slab → a ≢ free_slots_at slab → memory h' a ≡ memory h a
  pub same_caches : (h'.object_size ≡ h.object_size) × (h'.first_slab ≡ h.first_slab)

module _ (h : Kheap) (cache slab : ℕ) (fits : Fits (h.object_size cache))
    (valid : IsSlab h cache slab) (room : memory h (free_slots_at slab) ≢ 0) where
  abbrev size : ℕ
  size = h.object_size cache

  taken-Took :
      (k : ℕ)
      → k < capacity size
      → bit k (memory h slab) ≡ 0
      → Took h cache slab k ((slab + header_size + k * size % 2 ^ 32) % 2 ^ 64) (mark_slot slab k h)
  unfolding mark_slot
  taken-Took k below clear =
      let end = slot_end size k fits below in
      let cap = capacity-le size fits in
      record {
        was_free = clear;
        below = below;
        address = omega (arith, end, valid.top);
        inside = omega (arith, end, valid.top);
        bitmap = ground (arith, or-two_pow k (memory h slab), clear);
        one_less = ground (arith, valid.counted, cap);
        others = λ a p q. ground arith;
        same_caches = (refl, refl);
      }

  -- Taking a slot of a slab that has a free one succeeds.
  pub take_slot-Took :
      (k : ℕ) × (ptr : ℕ) × (h' : Kheap) × (take_slot cache slab h ≡ returned ptr h')
      × Took h cache slab k ptr h'
  unfolding take_slot
  take_slot-Took =
      let cap = capacity-le size fits in
      let (k, found, below, clear) =
        lowest_set-complement 64 (capacity size) (memory h slab) (omega (arith, cap)) valid.marked
          (omega (arith, valid.counted, ones-le (capacity size) (memory h slab))) in
      (k, _, mark_slot slab k h, rw (found, take_slot) refl, taken-Took k below clear)

-- After a slot of a well-formed slab was taken the slab is still well formed.
pub Took-IsSlab :
    {h h' : Kheap} {cache slab k ptr : ℕ}
    → IsSlab h cache slab
    → Took h cache slab k ptr h'
    → IsSlab h' cache slab
Took-IsSlab {h} {h'} {cache} {slab} {k} v t =
    let n = capacity (h.object_size cache) in
    let same : h'.object_size cache ≡ h.object_size cache = ap (λ f. f cache) t.same_caches.0 in
    record {
      aligned = v.aligned;
      nonzero = v.nonzero;
      top = v.top;
      owner = t.others (cache_at slab) (omega arith) (omega arith) ∙ v.owner;
      marked = rw (same, t.bitmap) (add-lt n k (memory h slab) t.below v.marked t.was_free);
      counted =
          rw (same, t.bitmap)
            (omega (arith, ones-add n k (memory h slab) t.below t.was_free, t.one_less, v.counted));
    }

-- In a cache with objects of 64 to 2048 bytes, freeing the pointer that a slot of a well-formed slab
-- was taken for, before anything else is written, restores the slab header: both cells hold what they held before, and no other cell
-- changes.
pub kfree-Took :
    {h h' : Kheap} {cache slab k ptr : ℕ}
    → Fits (h.object_size cache)
    → IsSlab h cache slab
    → Took h cache slab k ptr h'
    → (h'' : Kheap) × (kfree ptr h' ≡ returned 0 h'')
      × (memory h'' slab ≡ memory h slab)
      × (memory h'' (free_slots_at slab) ≡ memory h (free_slots_at slab))
      × ((a : ℕ) → a ≢ slab → a ≢ free_slots_at slab → memory h'' a ≡ memory h a)
unfolding kfree release_slot
kfree-Took {h} {h'} {cache} {slab} {k} {ptr} fits v t =
    let size = h.object_size cache in
    let end = slot_end size k fits t.below in
    let own : memory h' (cache_at slab) ≡ cache =
      t.others (cache_at slab) (omega arith) (omega arith) ∙ v.owner in
    let same : h'.object_size cache ≡ size = ap (λ f. f cache) t.same_caches.0 in
    let header : ptr / 4096 * 4096 ≡ slab = omega (arith, end, t.address, v.aligned) in
    let offset : (ptr + 2 ^ 64 - (slab + header_size)) % 2 ^ 64 ≡ k * size =
      omega (arith, end, t.address, v.top) in
    let slot : k * size / size ≡ k = mul_div k size (omega (arith, fits.0)) in
    let cap = capacity-le size fits in
    let here : (ptr == 0) ≡ false = ground (arith, t.address) in
    let in_word : ltb k 64 ≡ true = ground (arith, t.below, cap) in
    let bits =
      clear-add 64 k (memory h slab) (omega (arith, t.below, cap))
        (omega (arith, v.marked, pow_mono (capacity size) 64 (omega (arith, cap)))) t.was_free in
    (
      release_slot slab k h',
      rw (header, offset, own, same, slot, here, in_word) refl,
      ground (arith, bits, t.bitmap),
      ground (arith, t.one_less, v.counted, cap),
      λ a p q. ground (arith, t.others a),
    )
