-- ===== src/Memory/Paging/Tables.antt =====
-- What `get_or_create_table` of src/kernel/memory/memory.cpp does to a tree of page tables.
use Prim.Native.Nat.{bit_and}
use solstice_os.Base.{
  inr, inl, Bool-cases, ◌⊎◌, ℕ, zero, suc, ◌+◌, ◌%◌, ◌^◌, ◌<◌, ◌≤◌, ◌≡◌, ◌≢◌, refl, ap, ◌∙◌, Bool,
  true, false, arith, ◌==◌, not, List, length,
}
use solstice_os.Base.Store.{update}
use solstice_os.Memory.Pmm.{Pmm}
use solstice_os.Memory.Pmm.Chain.{has, Chain, IsFree, frame-update}
use solstice_os.Memory.Paging.{cell, zero_cells, maps_huge, address_mask}

abbrev pub is_present : ℕ → Bool
is_present entry = not (bit_and entry 1 == 0)

-- Each page that is a table has its level: 4 for the top, 1 for the tables of pages, and 0 for any
-- other address. The entries of a table lead to tables one level lower, no free frame is a table, and
-- frames are pages that an entry can hold.
pub record IsPaged (level : ℕ → ℕ) (s : Pmm) (frames : List ℕ) : Type 0 where
  pub free : IsFree s frames
  pub null : level 0 ≡ 0
  pub frame : (f : ℕ) → has f frames ≡ true → (level f ≡ 0) × (f % 4096 ≡ 0) × (f < 2 ^ 48)
  pub aligned : (t : ℕ) → level t ≢ 0 → t % 4096 ≡ 0
  pub child :
      (t i k : ℕ)
      → level t ≡ suc (suc k)
      → i < 512
      → is_present (s.mem (cell t i)) ≡ true
      → maps_huge (s.mem (cell t i)) ≡ false
      → level (bit_and (s.mem (cell t i)) address_mask) ≡ suc k
  pub unique :
      (t t' i i' k : ℕ)
      → level t ≡ suc (suc k)
      → level t' ≡ suc (suc k)
      → i < 512
      → i' < 512
      → (is_present (s.mem (cell t i)) ≡ true) × (maps_huge (s.mem (cell t i)) ≡ false)
      → (is_present (s.mem (cell t' i')) ≡ true) × (maps_huge (s.mem (cell t' i')) ≡ false)
      → bit_and (s.mem (cell t i)) address_mask ≡ bit_and (s.mem (cell t' i')) address_mask
      → (t ≡ t') × (i ≡ i')
  pub top : (t i : ℕ) → level t ≡ 4 → i < 512 → maps_huge (s.mem (cell t i)) ≡ false

pub zero_cells-out :
    (t left i : ℕ) (m : ℕ → ℕ) (p : ℕ)
    → (p < cell t i) ⊎ (cell t (i + left) ≤ p)
    → zero_cells t left i m p ≡ m p
unfolding zero_cells
zero_cells-out t zero i m p out = refl
zero_cells-out t (suc left) i m p out =
    ground (arith, zero_cells-out t left (i + 1) (update m (cell t i) 0) p)

pub zero_cells-in :
    (t left i j : ℕ) (m : ℕ → ℕ) → i ≤ j → j < i + left → zero_cells t left i m (cell t j) ≡ 0
unfolding zero_cells
zero_cells-in t zero i j m low high = absurd (omega arith)
zero_cells-in t (suc left) i j m low high = elim (Bool-cases (i == j)) [
  | inl here ↦
      let e : i ≡ j = ground arith in
      zero_cells-out t left (i + 1) (update m (cell t i) 0) (cell t j) (inl (omega arith))
      ∙ ground arith
  | inr later ↦ zero_cells-in t left (i + 1) j (update m (cell t i) 0) (ground arith) (omega arith)
]

pub zero_cells-Chain :
    (t left i : ℕ) (m : ℕ → ℕ) (p : ℕ) (xs : List ℕ)
    → ((j : ℕ) → j < i + left → has (cell t j) xs ≡ false)
    → Chain m p xs
    → Chain (zero_cells t left i m) p xs
unfolding zero_cells
zero_cells-Chain t zero i m p xs out c = c
zero_cells-Chain t (suc left) i m p xs out c =
    zero_cells-Chain t left (i + 1) (update m (cell t i) 0) p xs (λ j less. out j (omega arith))
      (frame-update m (cell t i) 0 p xs (out i (omega arith)) c)

-- What a call with the entry `i` of the table `t` leads to: the table below, one level lower, which
-- the entry now names, while no other entry of a table changes, no entry begins to map a large page, and
-- one that begins to lead to a table leads to a new one.
pub record Stepped (level : ℕ → ℕ) (s : Pmm) (frames : List ℕ) (t i k : ℕ) (below : ℕ) (s' : Pmm)
    (level' : ℕ → ℕ) (frames' : List ℕ) : Type 0 where
  pub paged : IsPaged level' s' frames'
  pub kind : level' below ≡ suc k
  pub named : is_present (s'.mem (cell t i)) ≡ true
  pub small : maps_huge (s'.mem (cell t i)) ≡ false
  pub address : bit_and (s'.mem (cell t i)) address_mask ≡ below
  pub levels : (p : ℕ) → level p ≢ 0 → level' p ≡ level p
  pub others :
      (p j : ℕ) → level p ≢ 0 → j < 512 → (p ≢ t) ⊎ (j ≢ i) → s'.mem (cell p j) ≡ s.mem (cell p j)
  pub origin :
      ((is_present (s.mem (cell t i)) ≡ true)
        × (below ≡ bit_and (s.mem (cell t i)) address_mask)
        × (s' ≡ s))
      ⊎ ((is_present (s.mem (cell t i)) ≡ false) × ((j : ℕ) → j < 512 → s'.mem (cell below j) ≡ 0))
  pub kept :
      (p j : ℕ)
      → level p ≢ 0
      → j < 512
      → is_present (s.mem (cell p j)) ≡ true
      → s'.mem (cell p j) ≡ s.mem (cell p j)
  pub used : length frames ≤ length frames' + 1
  pub counts : s.total ≤ s'.total + 1
  pub large :
      (p j : ℕ)
      → 1 < level' p
      → j < 512
      → maps_huge (s'.mem (cell p j)) ≡ true
      → (1 < level p) × (maps_huge (s.mem (cell p j)) ≡ true)
  pub fresh :
      (p j : ℕ)
      → 1 < level' p
      → j < 512
      → is_present (s'.mem (cell p j)) ≡ true
      → ((1 < level p) × (is_present (s.mem (cell p j)) ≡ true))
        ⊎ (level (bit_and (s'.mem (cell p j)) address_mask) ≡ 0)

-- Entries of tables lie apart.
pub cell_apart :
    (t i p j : ℕ)
    → t % 4096 ≡ 0
    → p % 4096 ≡ 0
    → i < 512
    → j < 512
    → (p ≢ t) ⊎ (j ≢ i)
    → cell p j ≢ cell t i
cell_apart t i p j at at' small small' other = ground arith

pub page_apart :
    (f p j : ℕ)
    → f % 4096 ≡ 0
    → p % 4096 ≡ 0
    → j < 512
    → p ≢ f
    → (cell p j < cell f 0) ⊎ (cell f (0 + 512) ≤ cell p j)
page_apart f p j at at' small other = ground arith

-- No cell of a page is a frame of the list, but for the page's first one.
pub has-cell :
    (frames : List ℕ)
    → ((f : ℕ) → has f frames ≡ true → f % 4096 ≡ 0)
    → (p j : ℕ) → p % 4096 ≡ 0
    → has p frames ≡ false
    → j < 512
    → has (cell p j) frames ≡ false
has-cell frames pages p j at out less = elim (Bool-cases (has (cell p j) frames)) [
  | inr out_of ↦ out_of
  | inl found ↦
      let at_page = pages (cell p j) found in
      let first : j ≡ 0 = omega arith in
      let e : cell p j ≡ p = omega arith in absurd (ground (arith, ap (λ (q : ℕ). has q frames) e))
]
