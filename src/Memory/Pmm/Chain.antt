-- ===== src/Memory/Pmm/Chain.antt =====
-- The free list seen as a stack of distinct frames, and what allocating and freeing do to it.
use solstice_os.Base.{
  ℕ, ◌+◌, ◌^◌, ◌<◌, ◌≡◌, refl, ◌≢◌, Bool, false, ◌||◌, List, [], ◌∷◌, arith, ◌==◌, length,
}
use solstice_os.Base.Store.{update}
use solstice_os.Memory.Pmm.{Pmm, pmm_alloc, pmm_free}

abbrev pub has : ℕ → List ℕ → Bool
has a [] = false
has a (x ∷ xs) = (a == x) || has a xs

-- From `p` the first words lead through the distinct frames `xs` to the null pointer.
abbrev pub Chain : (ℕ → ℕ) → ℕ → List ℕ → Type 0
Chain mem p [] = p ≡ 0
Chain mem p (x ∷ xs) = (p ≡ x) × (x ≢ 0) × (has x xs ≡ false) × Chain mem (mem x) xs

-- The allocator holds exactly the frames `xs`, the last one freed in front.
pub record IsFree (s : Pmm) (xs : List ℕ) : Type 0 where
  pub chain : Chain s.mem s.head xs
  pub counted : s.total ≡ length xs
  pub small : length xs < 2 ^ 64

-- A write outside the chain leaves it alone.
pub frame-update :
    (mem : ℕ → ℕ) (a v p : ℕ) (xs : List ℕ)
    → has a xs ≡ false
    → Chain mem p xs
    → Chain (update mem a v) p xs
frame-update mem a v p [] out c = c
frame-update mem a v p (x ∷ xs) out c =
    (c.0, c.1, c.2, ground (arith, frame-update mem a v (mem x) xs))

-- With a free frame, an allocation takes the front one, and leaves memory and the other frames as
-- they were.
pub alloc-cons :
    (s : Pmm) (x : ℕ) (xs : List ℕ)
    → IsFree s (x ∷ xs)
    → ((pmm_alloc s).0 ≡ x) × IsFree (pmm_alloc s).1 xs × ((pmm_alloc s).1.mem ≡ s.mem)
unfolding pmm_alloc
alloc-cons s x xs f = ground arith

pub alloc-nil : (s : Pmm) → IsFree s [] → pmm_alloc s ≡ (0, s)
unfolding pmm_alloc
alloc-nil s f = ground arith

-- Freeing a frame that is not null and not free already puts it in front of the free ones.
pub IsFree-cons :
    (s : Pmm) (a : ℕ) (xs : List ℕ)
    → IsFree s xs
    → a ≢ 0
    → has a xs ≡ false
    → length xs + 1 < 2 ^ 64
    → IsFree (pmm_free a s) (a ∷ xs)
unfolding pmm_free
IsFree-cons s a xs f ne out room = record {
  chain = (refl, ne, out, ground (arith, frame-update s.mem a s.head s.head xs out f.chain));
  counted = ground arith;
  small = ground arith;
}
