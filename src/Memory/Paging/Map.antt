-- ===== src/Memory/Paging/Map.antt =====
-- `map_page` of src/kernel/memory/memory.cpp against the walk of the page tables.
use solstice_os.Base.{
  ℕ, suc, ◌<◌, ◌≤◌, ◌≡◌, ◌≢◌, refl, ap, ◌∙◌, sym, true, false, arith, ◌==◌, List, length, some, inl,
  inr, Bool-cases,
}
use solstice_os.Memory.Pmm.{Pmm}
use solstice_os.Memory.Paging.{
  Vm, cell, get_or_create_table, maps_huge, index_at, with_pmm, write_entry, map_in_pd, map_in_pdpt,
  map_page,
}
use solstice_os.Memory.Paging.Tables.{is_present, IsPaged, Stepped}
use solstice_os.Memory.Paging.Create.{get_or_create_table-Stepped}
use solstice_os.Memory.Paging.Walk.{
  table_of, page_place, walk_pd, walk_pdpt, translate, large_in_pd, large_in_pdpt, is_large, Below,
  Leads, index-small, write_entry-Below, write_entry-walk_pt,
}

Stepped-Below :
    (level : ℕ → ℕ) (s : Pmm) (frames : List ℕ) (t i k below : ℕ) (s₁ : Pmm) (level₁ : ℕ → ℕ)
    (frames₁ : List ℕ) (s₂ : Pmm) (last index : ℕ)
    → Stepped level s frames t i k below s₁ level₁ frames₁
    → level t ≡ suc (suc k)
    → Below (suc k) level₁ s₁ s₂ last index
    → Below (suc (suc k)) level s s₂ last index
Stepped-Below level s frames t i k below s₁ level₁ frames₁ s₂ last index step kind rest = record {
  level' = rest.level';
  frames' = rest.frames';
  paged = rest.paged;
  levels = λ q some_level.
      rest.levels q (λ e. some_level (sym (step.levels q some_level) ∙ e))
      ∙ step.levels q some_level;
  others = λ q j high less.
      let same = step.levels q (omega arith) in
      let other : q ≢ t = λ e. omega (arith, ap level e) in
      rest.others q j (omega arith) less ∙ step.others q j (omega arith) less (inl other);
  kept = λ q j high less present.
      let same = step.levels q (omega arith) in
      let e = step.kept q j (omega arith) less present in
      rest.kept q j (omega arith) less (ap is_present e ∙ present) ∙ e;
  pages = λ q j at_level less other.
      let same = step.levels q (omega arith) in
      let apart : q ≢ t = λ e. omega (arith, ap level e) in
      rest.pages q j (omega arith) less other ∙ step.others q j (omega arith) less (inl apart);
  counts = omega (arith, rest.counts, step.counts);
  large = λ q j high less huge.
      let (high₁, huge₁) = rest.large q j high less huge in step.large q j high₁ less huge₁;
  fresh = λ q j high less present. elim (rest.fresh q j high less present) [
    | inl (high₁, present₁) ↦
        let e = rest.kept q j high₁ less present₁ in rw e (step.fresh q j high₁ less present₁)
    | inr new ↦
        let below = table_of (s₂.mem (cell q j)) in inr (ground (arith, step.levels below, new))
  ];
}

-- The entry that a step leaves is still there after changes of lower tables.
Stepped-entry :
    (level : ℕ → ℕ) (s : Pmm) (frames : List ℕ) (t i k below : ℕ) (s₁ : Pmm) (level₁ : ℕ → ℕ)
    (frames₁ : List ℕ) (s₂ : Pmm) (last index : ℕ)
    → Stepped level s frames t i k below s₁ level₁ frames₁
    → level t ≡ suc (suc k)
    → i < 512
    → Below (suc k) level₁ s₁ s₂ last index
    → (is_present (s₂.mem (cell t i)) ≡ true)
      × (maps_huge (s₂.mem (cell t i)) ≡ false)
      × (table_of (s₂.mem (cell t i)) ≡ below)
Stepped-entry level s frames t i k below s₁ level₁ frames₁ s₂ last index step kind less rest =
    let same = step.levels t (omega arith) in
    let e = rest.others t i (omega arith) less in rw e (step.named, step.small, step.address)

some_table :
    (level : ℕ → ℕ) (s : Pmm) (frames : List ℕ) (t k : ℕ)
    → IsPaged level s frames
    → level t ≡ suc k
    → (t == 0) ≡ false
some_table level s frames t k paged kind = elim (Bool-cases (t == 0)) [
  | inr other ↦ other
  | inl zero_table ↦ let e : t ≡ 0 = ground arith in absurd (omega (arith, ap level e, paged.null))
]

map_in_pd-Mapped :
    (level : ℕ → ℕ) (vm : Vm) (frames : List ℕ) (pd v p : ℕ)
    → IsPaged level vm.pmm frames
    → level pd ≡ 2
    → 1 ≤ length frames
    → large_in_pd vm.pmm.mem pd v ≡ false
    → (pt : ℕ) × Below 2 level vm.pmm (map_in_pd pd v p vm).pmm pt (index_at 12 v)
      × (walk_pd (map_in_pd pd v p vm).pmm.mem pd v ≡ some (page_place v p))
      × Leads (map_in_pd pd v p vm).pmm.mem pd (index_at 21 v) pt
unfolding map_in_pd walk_pd large_in_pd
map_in_pd-Mapped level vm frames pd v p paged kind room no_large =
    let i = index_at 21 v in
    let small = index-small 21 v in
    let (level₁, frames₁, step) =
      get_or_create_table-Stepped level vm.pmm frames pd i 0 paged kind small no_large room in
    let result = get_or_create_table pd i vm.pmm in
    let some_pt = some_table level₁ result.1 frames₁ result.0 0 step.paged step.kind in
    let vm₁ = with_pmm vm result.1 in
    let rest = write_entry-Below level₁ vm₁ frames₁ result.0 v p step.paged step.kind in
    let s₂ = (write_entry result.0 v p vm₁).pmm in
    let (present, no_huge, address) =
      Stepped-entry level vm.pmm frames pd i 0 result.0 result.1 level₁ frames₁ s₂ result.0
        (index_at 12 v) step kind small rest in
    rw (no_large, some_pt, present, no_huge, address)
      (
        result.0,
        Stepped-Below level vm.pmm frames pd i 0 result.0 result.1 level₁ frames₁ s₂ result.0
            (index_at 12 v) step kind rest,
        write_entry-walk_pt vm₁ result.0 v p,
        (refl, refl, refl),
      )

empty-large_in_pd :
    (mem : ℕ → ℕ) (t v : ℕ) → ((j : ℕ) → j < 512 → mem (cell t j) ≡ 0) → large_in_pd mem t v ≡ false
unfolding large_in_pd maps_huge
empty-large_in_pd mem t v empty = ap maps_huge (empty (index_at 21 v) (index-small 21 v))

empty-large_in_pdpt :
    (mem : ℕ → ℕ) (t v : ℕ)
    → ((j : ℕ) → j < 512 → mem (cell t j) ≡ 0)
    → large_in_pdpt mem t v ≡ false
unfolding large_in_pdpt maps_huge
empty-large_in_pdpt mem t v empty = rw (empty (index_at 30 v) (index-small 30 v)) refl

map_in_pdpt-Mapped :
    (level : ℕ → ℕ) (vm : Vm) (frames : List ℕ) (pdpt v p : ℕ)
    → IsPaged level vm.pmm frames
    → level pdpt ≡ 3
    → 2 ≤ length frames
    → large_in_pdpt vm.pmm.mem pdpt v ≡ false
    → (pt : ℕ) × Below 3 level vm.pmm (map_in_pdpt pdpt v p vm).pmm pt (index_at 12 v)
      × (walk_pdpt (map_in_pdpt pdpt v p vm).pmm.mem pdpt v ≡ some (page_place v p))
      × ((pd : ℕ) × Leads (map_in_pdpt pdpt v p vm).pmm.mem pdpt (index_at 30 v) pd
          × Leads (map_in_pdpt pdpt v p vm).pmm.mem pd (index_at 21 v) pt)
unfolding map_in_pdpt walk_pdpt large_in_pdpt
map_in_pdpt-Mapped level vm frames pdpt v p paged kind room no_large =
    let i = index_at 30 v in
    let small = index-small 30 v in
    let no_huge : maps_huge (vm.pmm.mem (cell pdpt i)) ≡ false = ground arith in
    let (level₁, frames₁, step) =
      get_or_create_table-Stepped level vm.pmm frames pdpt i 1 paged kind small no_huge
        (omega arith) in
    let result = get_or_create_table pdpt i vm.pmm in
    let some_pd = some_table level₁ result.1 frames₁ result.0 1 step.paged step.kind in
    let vm₁ = with_pmm vm result.1 in
    let no_large₁ : large_in_pd result.1.mem result.0 v ≡ false = elim step.origin [
      | inr (_, fresh) ↦ empty-large_in_pd result.1.mem result.0 v fresh
      | inl (present, e, same) ↦ rw (same, e) (ground arith)
    ] in
    let (pt, rest, walked, leads) =
      map_in_pd-Mapped level₁ vm₁ frames₁ result.0 v p step.paged step.kind
        (omega (arith, step.used)) no_large₁ in
    let s₂ = (map_in_pd result.0 v p vm₁).pmm in
    let (present, no_huge₂, address) =
      Stepped-entry level vm.pmm frames pdpt i 1 result.0 result.1 level₁ frames₁ s₂ pt
        (index_at 12 v) step kind small rest in
    rw (no_huge, some_pd, present, no_huge₂, address)
      (
        pt,
        Stepped-Below level vm.pmm frames pdpt i 1 result.0 result.1 level₁ frames₁ s₂ pt
            (index_at 12 v) step kind rest,
        walked,
        (result.0, (refl, refl, refl), leads),
      )

-- The tables that lead to an address after `map_page`.
pub map_page-Mapped :
    (level : ℕ → ℕ) (vm : Vm) (frames : List ℕ) (v p : ℕ)
    → IsPaged level vm.pmm frames
    → level (table_of vm.cr3) ≡ 4
    → 3 ≤ length frames
    → is_large vm.pmm.mem vm.cr3 v ≡ false
    → (pt : ℕ) × Below 4 level vm.pmm (map_page v p vm).pmm pt (index_at 12 v)
      × (translate (map_page v p vm).pmm.mem vm.cr3 v ≡ some (page_place v p))
      × ((pdpt : ℕ) × (pd : ℕ) × Leads
            (map_page v p vm).pmm.mem
            (table_of vm.cr3)
            (index_at 39 v)
            pdpt
          × Leads (map_page v p vm).pmm.mem pdpt (index_at 30 v) pd
          × Leads (map_page v p vm).pmm.mem pd (index_at 21 v) pt)
unfolding map_page translate is_large
map_page-Mapped level vm frames v p paged kind room no_large =
    let pml4 = table_of vm.cr3 in
    let i = index_at 39 v in
    let small = index-small 39 v in
    let (level₁, frames₁, step) =
      get_or_create_table-Stepped level vm.pmm frames pml4 i 2 paged kind small
        (paged.top pml4 i kind small) (omega arith) in
    let result = get_or_create_table pml4 i vm.pmm in
    let some_pdpt = some_table level₁ result.1 frames₁ result.0 2 step.paged step.kind in
    let vm₁ = with_pmm vm result.1 in
    let no_large₁ : large_in_pdpt result.1.mem result.0 v ≡ false = elim step.origin [
      | inr (_, fresh) ↦ empty-large_in_pdpt result.1.mem result.0 v fresh
      | inl (present, e, same) ↦ rw (same, e) (ground arith)
    ] in
    let (pt, rest, walked, (pd, leads, leads')) =
      map_in_pdpt-Mapped level₁ vm₁ frames₁ result.0 v p step.paged step.kind
        (omega (arith, step.used)) no_large₁ in
    let s₂ = (map_in_pdpt result.0 v p vm₁).pmm in
    let (present, no_huge, address) =
      Stepped-entry level vm.pmm frames pml4 i 2 result.0 result.1 level₁ frames₁ s₂ pt
        (index_at 12 v) step kind small rest in
    rw (some_pdpt, present, address)
      (
        pt,
        Stepped-Below level vm.pmm frames pml4 i 2 result.0 result.1 level₁ frames₁ s₂ pt
            (index_at 12 v) step kind rest,
        walked,
        (result.0, pd, (refl, no_huge, refl), leads, leads'),
      )

-- In a tree of page tables under CR3 with three free frames, and if no large page covers the address,
-- `map_page` keeps the tree with its free frames, and the walk of the tables then leads from the virtual
-- address to the same place in the physical page. Of the entries that were present it changes none but
-- the page's own.
pub map_page-translate :
    (level : ℕ → ℕ) (vm : Vm) (frames : List ℕ) (virtual_address physical_address : ℕ)
    → IsPaged level vm.pmm frames
    → level (table_of vm.cr3) ≡ 4
    → 3 ≤ length frames
    → is_large vm.pmm.mem vm.cr3 virtual_address ≡ false
    → (pt : ℕ) × Below 4 level vm.pmm
        (map_page virtual_address physical_address vm).pmm
        pt
        (index_at 12 virtual_address)
      × (translate (map_page virtual_address physical_address vm).pmm.mem vm.cr3 virtual_address
          ≡ some (page_place virtual_address physical_address))
map_page-translate level vm frames v p paged kind room no_large =
    let (pt, below, walked, _) = map_page-Mapped level vm frames v p paged kind room no_large in
    (pt, below, walked)
