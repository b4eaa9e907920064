-- ===== src/Memory/Slab/Alloc.antt =====
-- `kmalloc` as a whole: which slab serves a request, and what the caller gets.
use native.Mathlib.Decide.{dec_le}
use solstice_os.Base.{
  fun_ext, false, ℕ, zero, suc, ◌+◌, ◌%◌, ◌^◌, ◌≤◌, ◌<◌, ◌≡◌, ◌≢◌, ◌⊎◌, inl, inr, refl, ap, ◌∙◌,
  some, arith, ◌==◌, List, [], ◌∷◌, length, get_or, Bool-cases,
}
use native.Mathlib.Nat.{one-le-pow}
use solstice_os.Base.Bits.{ones-zero}
use solstice_os.Memory.Pmm.{pmm_alloc}
use solstice_os.Memory.Pmm.Chain.{IsFree, alloc-cons, alloc-nil}
use solstice_os.Memory.Slab.{
  Kheap, memory, free_slots_at, next_at, Outcome, returned, sizes, num_caches, find_cache,
  find_slab, new_slab, grow, alloc_from, walk, kmalloc,
}
use solstice_os.Memory.Slab.Slots.{capacity, capacity-le, IsSlab, Fits, Took, take_slot-Took}

-- The table that `init_kmalloc` fills in.
abbrev pub size_of : ℕ → ℕ
size_of i = get_or sizes i 0

cache_for :
    (target : ℕ)
    → 32 < target
    → target ≤ 2048
    → (i : ℕ) × (find_cache size_of num_caches 0 target ≡ some i)
      × (target ≤ size_of i)
      × Fits (size_of i)
      × ((j : ℕ) → j < i → size_of j < target)
unfolding find_cache
cache_for target lo hi = elim (dec_le target 64) [
  | yes p ↦ (1, ground arith, p, omega arith, λ j less. ground arith)
  | no p ↦ elim (dec_le target 128) [
    | yes q ↦ (2, ground arith, q, omega arith, λ j less. ground arith)
    | no q ↦ elim (dec_le target 256) [
      | yes r ↦ (3, ground arith, r, omega arith, λ j less. ground arith)
      | no r ↦ elim (dec_le target 512) [
        | yes s ↦ (4, ground arith, s, omega arith, λ j less. ground arith)
        | no s ↦ elim (dec_le target 1024) [
          | yes t ↦ (5, ground arith, t, omega arith, λ j less. ground arith)
          | no t ↦ (6, ground arith, hi, omega arith, λ j less. ground arith)
        ]
      ]
    ]
  ]
]

-- The slabs of a cache, from `p` along `next` to the null pointer.
abbrev pub Slabs : Kheap → (cache p : ℕ) → List ℕ → Type 0
Slabs h cache p [] = p ≡ 0
Slabs h cache p (x ∷ xs) = (p ≡ x) × IsSlab h cache x × Slabs h cache (memory h (next_at x)) xs

-- Where the walk ends: at 0, or at a slab of the cache with a free slot.
abbrev Found : Kheap → (cache found : ℕ) → Type 0
Found h cache found = (found ≡ 0) ⊎ (IsSlab h cache found × (memory h (free_slots_at found) ≢ 0))

find_slab-Found :
    (fuel : ℕ) (h : Kheap) (cache p : ℕ) (xs : List ℕ)
    → Slabs h cache p xs
    → length xs < fuel
    → (found : ℕ) × (find_slab fuel (memory h) p ≡ some found) × Found h cache found
unfolding find_slab
find_slab-Found zero h cache p xs s enough = absurd (omega arith)
find_slab-Found (suc fuel) h cache p [] s enough = (0, ground arith, inl refl)
find_slab-Found (suc fuel) h cache p (x ∷ xs) s enough =
    let rest = find_slab-Found fuel h cache (memory h (next_at x)) xs s.2 (omega arith) in
    let there : (p == 0) ≡ false = ground (arith, s.1.nonzero) in
    elim (Bool-cases (memory h (free_slots_at x) == 0)) [
      | inl full ↦ (rest.0, ground (arith, rest.1, s.0), rest.2)
      | inr some_free ↦ (x, ground (arith, s.0), inr (s.1, ground arith))
    ]

-- Frames that `pmm_alloc` may hand out: whole pages.
abbrev pub IsFrame : ℕ → Type 0
IsFrame a = (a % 4096 ≡ 0) × (0 < a) × (a + 4096 ≤ 2 ^ 64)

abbrev pub AllFrames : List ℕ → Type 0
AllFrames [] = Unit {0}
AllFrames (x ∷ xs) = IsFrame x × AllFrames xs

new_slab-IsSlab :
    (h : Kheap) (cache page : ℕ)
    → Fits (h.object_size cache)
    → IsFrame page
    → IsSlab (new_slab cache page h) cache page
      × (memory (new_slab cache page h) (free_slots_at page) ≢ 0)
unfolding new_slab
new_slab-IsSlab h cache page fits frame =
    let cap = capacity-le (h.object_size cache) fits in
    (
      record {
        aligned = frame.0;
        nonzero = frame.1;
        top = frame.2;
        owner = ground arith;
        marked = ground (arith, one-le-pow (capacity (h.object_size cache)) 2);
        counted = ground (arith, ones-zero (capacity (h.object_size cache)));
      },
      ground (arith, cap),
    )

-- A request served from slab `slab` of the first cache whose objects are large enough, in the heap `before`
-- that the slot is taken from: the given one, or the one with a new slab in front of the cache's list.
pub record Served (h : Kheap) (target ptr : ℕ) (h' : Kheap) : Type 0 where
  pub cache : ℕ
  pub slab : ℕ
  pub slot : ℕ
  pub before : Kheap
  pub large : target ≤ h.object_size cache
  pub first : (j : ℕ) → j < cache → h.object_size j < target
  pub fits : Fits (before.object_size cache)
  pub origin :
      (before ≡ h) ⊎ (before ≡ new_slab cache slab (record h { pmm = (pmm_alloc h.pmm).1 }))
  pub valid : IsSlab before cache slab
  pub took : Took before cache slab slot ptr h'

-- What `kmalloc` gives: null with no page left, or a slot.
abbrev pub Result : Kheap → (target : ℕ) → List ℕ → Outcome → Type 0
Result h target frames o =
    (ptr : ℕ) × (h' : Kheap) × (o ≡ returned ptr h')
    × (((ptr ≡ 0) × (frames ≡ [])) ⊎ Served h target ptr h')

module _ (h : Kheap) (cache target : ℕ) (large : target ≤ h.object_size cache)
    (first : (j : ℕ) → j < cache → h.object_size j < target)
    (fits : Fits (h.object_size cache)) where
  grow-Result :
      (frames : List ℕ)
      → IsFree h.pmm frames
      → AllFrames frames
      → Result h target frames (grow cache h)
  unfolding grow new_slab
  grow-Result [] free all = (0, h, rw (alloc-nil h.pmm free) refl, inl (refl, refl))
  grow-Result (x ∷ frames) free all =
      let got = alloc-cons h.pmm x frames free in
      let page = (pmm_alloc h.pmm).0 in
      let frame : IsFrame page = rw got.0 all.0 in
      let here : (page == 0) ≡ false = ground arith in
      let after = record h { pmm = (pmm_alloc h.pmm).1 } in
      let fresh = new_slab-IsSlab after cache page fits frame in
      let (k, ptr, h', e, took) =
        take_slot-Took (new_slab cache page after) cache page fits fresh.0 fresh.1 in
      (
        ptr,
        h',
        rw here e,
        inr (record {
          cache = cache;
          slab = page;
          slot = k;
          before = new_slab cache page after;
          large = large;
          first = first;
          fits = fits;
          origin = inr refl;
          valid = fresh.0;
          took = took;
        }),
      )

  alloc_from-Result :
      (frames : List ℕ) (found : ℕ)
      → Found h cache found
      → IsFree h.pmm frames
      → AllFrames frames
      → Result h target frames (alloc_from cache found h)
  unfolding alloc_from
  alloc_from-Result frames found (inl null) free all = rw null (grow-Result frames free all)
  alloc_from-Result frames found (inr (valid, room)) free all =
      let here : (found == 0) ≡ false = ground (arith, valid.nonzero) in
      let (k, ptr, h', e, took) = take_slot-Took h cache found fits valid room in
      (
        ptr,
        h',
        rw here e,
        inr (record {
          cache = cache;
          slab = found;
          slot = k;
          before = h;
          large = large;
          first = first;
          fits = fits;
          origin = inl refl;
          valid = valid;
          took = took;
        }),
      )

-- A request of 33 to 2048 bytes always ends, with one of two results: null, and then no page is
-- free; or a slot of a slab of the first large enough cache, which was free until now and lies
-- within the slab's page. The heap has the sizes of `init_kmalloc`, well-formed slabs, free frames
-- that are pages, and more fuel than any cache has slabs.
pub kmalloc-Result :
    (fuel target : ℕ) (h : Kheap) (slabs : ℕ → List ℕ) (frames : List ℕ)
    → 32 < target
    → target ≤ 2048
    → ((i : ℕ) → h.object_size i ≡ size_of i)
    → ((i : ℕ) → Slabs h i (h.first_slab i) (slabs i))
    → ((i : ℕ) → length (slabs i) < fuel)
    → IsFree h.pmm frames
    → AllFrames frames
    → Result h target frames (kmalloc fuel target h)
unfolding kmalloc walk
kmalloc-Result fuel target h slabs frames lo hi sized lists enough free all =
    let (i, found, large, fits, first) = cache_for target lo hi in
    let positive : (target == 0) ≡ false = ground arith in
    let (slab, e, ended) =
      find_slab-Found fuel h i (h.first_slab i) (slabs i) (lists i) (enough i) in
    let looked : find_cache h.object_size num_caches 0 target ≡ some i =
      ap (λ f. find_cache f num_caches 0 target) (fun_ext sized) ∙ found in
    rw (positive, looked, kmalloc, e, walk)
      (alloc_from-Result h i target (rw (sized i) large) (λ j less. rw (sized j) (first j less))
        (rw (sized i) fits) frames slab ended free all)
