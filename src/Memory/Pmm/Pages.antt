-- ===== src/Memory/Pmm/Pages.antt =====
-- `pmm_alloc_pages` of src/kernel/memory/memory.cpp: a row of single allocations.
use solstice_os.Base.{
  ℕ, zero, suc, ◌-◌, ◌<◌, ◌≤◌, ◌≡◌, refl, List, [], ◌∷◌, arith, length, drop, get_or,
}
use solstice_os.Memory.Pmm.{Pmm, pmm_alloc, alloc_rest, pmm_alloc_pages}
use solstice_os.Memory.Pmm.Chain.{IsFree, alloc-cons, alloc-nil}

rest_enough :
    (left first : ℕ) (s : Pmm) (xs : List ℕ)
    → IsFree s xs
    → left ≤ length xs
    → ((alloc_rest left first s).0 ≡ first) × IsFree (alloc_rest left first s).1 (drop left xs)
unfolding alloc_rest
rest_enough zero first s xs f h = (refl, f)
rest_enough (suc left) first s [] f h = absurd (omega arith)
rest_enough (suc left) first s (x ∷ xs) f h =
    ground (arith, alloc-cons s x xs f, rest_enough left first (pmm_alloc s).1 xs)

rest_short :
    (left first : ℕ) (s : Pmm) (xs : List ℕ)
    → IsFree s xs
    → length xs < left
    → ((alloc_rest left first s).0 ≡ 0) × IsFree (alloc_rest left first s).1 []
unfolding alloc_rest
rest_short zero first s xs f h = absurd (omega arith)
rest_short (suc left) first s [] f h = ground (arith, alloc-nil s f)
rest_short (suc left) first s (x ∷ xs) f h =
    ground (arith, alloc-cons s x xs f, rest_short left first (pmm_alloc s).1 xs)

-- With enough free frames `pmm_alloc_pages` returns the front frame, and exactly the `count` front
-- frames leave the free list.
pub alloc_pages-drop :
    (count : ℕ) (s : Pmm) (xs : List ℕ)
    → IsFree s xs
    → 0 < count
    → count ≤ length xs
    → ((pmm_alloc_pages count s).0 ≡ get_or xs 0 0)
      × IsFree (pmm_alloc_pages count s).1 (drop count xs)
unfolding pmm_alloc_pages
alloc_pages-drop zero s xs f pos h = absurd (omega arith)
alloc_pages-drop (suc n) s [] f pos h = absurd (omega arith)
alloc_pages-drop (suc n) s (x ∷ xs) f pos h =
    ground (arith, alloc-cons s x xs f, rest_enough (suc n - 1) x (pmm_alloc s).1 xs)

-- With too few free frames `pmm_alloc_pages` returns null, and no frame is left in the free list:
-- those it had taken are not given back.
pub alloc_pages_short :
    (count : ℕ) (s : Pmm) (xs : List ℕ)
    → IsFree s xs
    → length xs < count
    → ((pmm_alloc_pages count s).0 ≡ 0) × IsFree (pmm_alloc_pages count s).1 []
unfolding pmm_alloc_pages
alloc_pages_short zero s xs f h = absurd (omega arith)
alloc_pages_short (suc n) s [] f h = ground (arith, alloc-nil s f)
alloc_pages_short (suc n) s (x ∷ xs) f h =
    ground (arith, alloc-cons s x xs f, rest_short (suc n - 1) x (pmm_alloc s).1 xs)
