-- ===== src/Memory/Paging/Range.antt =====
-- `identity_map_range` of src/kernel/memory/memory.cpp, page by page.
use solstice_os.Base.{
  ℕ, ◌≡◌, ◌≢◌, refl, ap, sym, ◌∙◌, true, false, ◌&&◌, ◌==◌, Bool-cases, inl, inr, arith, List,
}
use mathlib.Core.Bool.{true≢false}
use solstice_os.Memory.Pmm.{Pmm}
use solstice_os.Memory.Paging.{
  write_entry, map_in_pdpt, map_in_pd, Vm, cell, maps_huge, index_at, get_or_create_table, with_pmm,
  write_entry, map_in_pd, map_in_pdpt, map_page,
}
use solstice_os.Memory.Paging.Tables.{is_present, IsPaged}
use solstice_os.Memory.Paging.Walk.{
  table_of, large_in_pd, large_in_pdpt, is_large, Below, index-small,
}

module _ (level : ℕ → ℕ) (s s' : Pmm) (frames : List ℕ) (paged : IsPaged level s frames)
    (pt index : ℕ) (after : Below 4 level s s' pt index) (w : ℕ) where
  -- No large page is found in a new table.
  new_pd : (t : ℕ) → level t ≡ 0 → after.level' t ≡ 2 → large_in_pd s'.mem t w ≢ true
  unfolding large_in_pd
  new_pd t new kind large =
      let (high, _) =
        after.large t (index_at 21 w) (omega (arith, kind)) (index-small 21 w) large in
      absurd (omega (arith, new, high))

  new_pdpt : (t : ℕ) → level t ≡ 0 → after.level' t ≡ 3 → large_in_pdpt s'.mem t w ≢ true
  unfolding large_in_pdpt
  new_pdpt t new kind large =
      let i = index_at 30 w in
      let small = index-small 30 w in
      let entry = s'.mem (cell t i) in
      elim (Bool-cases (maps_huge entry)) [
        | inl huge ↦
            let (high, _) = after.large t i (omega (arith, kind)) small huge in
            absurd (omega (arith, new, high))
        | inr no_huge ↦
            let present : is_present entry ≡ true = ground arith in
            let below : large_in_pd s'.mem (table_of entry) w ≡ true = ground arith in
            let kind' = after.paged.child t i 1 kind small present no_huge in
            elim (after.fresh t i (omega (arith, kind)) small present) [
              | inl (high, _) ↦ absurd (omega (arith, new, high))
              | inr new' ↦ new_pd (table_of entry) new' kind' below
            ]
      ]

  large_in_pd-before :
      (t : ℕ) → level t ≡ 2 → large_in_pd s'.mem t w ≡ true → large_in_pd s.mem t w ≡ true
  unfolding large_in_pd
  large_in_pd-before t kind large =
      let same = after.levels t (omega (arith, kind)) in
      (after.large t (index_at 21 w) (omega (arith, kind, same)) (index-small 21 w) large).1

  large_in_pdpt-before :
      (t : ℕ) → level t ≡ 3 → large_in_pdpt s'.mem t w ≡ true → large_in_pdpt s.mem t w ≡ true
  unfolding large_in_pdpt
  large_in_pdpt-before t kind large =
      let i = index_at 30 w in
      let small = index-small 30 w in
      let entry' = s'.mem (cell t i) in
      let same = after.levels t (omega (arith, kind)) in
      elim (Bool-cases (maps_huge entry')) [
        | inl huge ↦ rw ((after.large t i (omega (arith, kind, same)) small huge).1) refl
        | inr no_huge ↦
            let present' : is_present entry' ≡ true = ground arith in
            let below : large_in_pd s'.mem (table_of entry') w ≡ true = ground arith in
            elim (after.fresh t i (omega (arith, kind, same)) small present') [
              | inl (_, present) ↦
                  let e = after.kept t i (omega (arith, kind)) small present in
                  let no_huge' = sym (ap maps_huge e) ∙ no_huge in
                  let kind' = paged.child t i 1 kind small present no_huge' in
                  let large' =
                    large_in_pd-before (table_of (s.mem (cell t i))) kind'
                      (ap (λ (v : ℕ). large_in_pd s'.mem (table_of v) w) (sym e) ∙ below) in
                  rw (no_huge', present, large') refl
              | inr new ↦
                  let kind' = after.paged.child t i 1 (same ∙ kind) small present' no_huge in
                  absurd (new_pd (table_of entry') new kind' below)
            ]
      ]

  -- Where no large page covered an address, none covers it after the change.
  pub is_large-after :
      (cr3 : ℕ)
      → level (table_of cr3) ≡ 4
      → is_large s.mem cr3 w ≡ false
      → is_large s'.mem cr3 w ≡ false
  unfolding is_large
  is_large-after cr3 kind none_before =
      let t = table_of cr3 in
      let i = index_at 39 w in
      let small = index-small 39 w in
      let entry' = s'.mem (cell t i) in
      let same = after.levels t (omega (arith, kind)) in
      elim (Bool-cases (is_present entry' && large_in_pdpt s'.mem (table_of entry') w)) [
        | inr no_large ↦ no_large
        | inl large ↦
            let present' : is_present entry' ≡ true = ground arith in
            let below : large_in_pdpt s'.mem (table_of entry') w ≡ true = ground arith in
            elim (after.fresh t i (omega (arith, kind, same)) small present') [
              | inl (_, present) ↦
                  let e = after.kept t i (omega (arith, kind)) small present in
                  let kind' = paged.child t i 2 kind small present (paged.top t i kind small) in
                  let large' =
                    large_in_pdpt-before (table_of (s.mem (cell t i))) kind'
                      (ap (λ (v : ℕ). large_in_pdpt s'.mem (table_of v) w) (sym e) ∙ below) in
                  absurd (true≢false (sym (rw (present, large') refl) ∙ none_before))
              | inr new ↦
                  let kind' =
                    after.paged.child t i 2 (same ∙ kind) small present'
                      (after.paged.top t i (same ∙ kind) small) in
                  absurd (new_pdpt (table_of entry') new kind' below)
            ]
      ]

  huge-present : (entry : ℕ) → maps_huge entry ≡ true → is_present entry ≡ true
  unfolding maps_huge
  huge-present entry huge = ground arith

  large_in_pd-kept :
      (t : ℕ) → level t ≡ 2 → large_in_pd s.mem t w ≡ true → large_in_pd s'.mem t w ≡ true
  unfolding large_in_pd
  large_in_pd-kept t kind large =
      let i = index_at 21 w in
      let present = huge-present (s.mem (cell t i)) large in
      ap maps_huge (after.kept t i (omega (arith, kind)) (index-small 21 w) present) ∙ large

  large_in_pdpt-kept :
      (t : ℕ) → level t ≡ 3 → large_in_pdpt s.mem t w ≡ true → large_in_pdpt s'.mem t w ≡ true
  unfolding large_in_pdpt
  large_in_pdpt-kept t kind large =
      let i = index_at 30 w in
      let small = index-small 30 w in
      let entry = s.mem (cell t i) in
      elim (Bool-cases (maps_huge entry)) [
        | inl huge ↦
            let e = after.kept t i (omega (arith, kind)) small (huge-present entry huge) in
            rw (e, huge) refl
        | inr no_huge ↦
            let present : is_present entry ≡ true = ground arith in
            let below : large_in_pd s.mem (table_of entry) w ≡ true = ground arith in
            let e = after.kept t i (omega (arith, kind)) small present in
            let kind' = paged.child t i 1 kind small present no_huge in
            rw (e, no_huge, present, large_in_pd-kept (table_of entry) kind' below) refl
      ]

  -- And a large page that covered an address still does.
  pub is_large-kept :
      (cr3 : ℕ)
      → level (table_of cr3) ≡ 4
      → is_large s.mem cr3 w ≡ true
      → is_large s'.mem cr3 w ≡ true
  unfolding is_large
  is_large-kept cr3 kind large =
      let t = table_of cr3 in
      let i = index_at 39 w in
      let small = index-small 39 w in
      let entry = s.mem (cell t i) in
      let present : is_present entry ≡ true = ground arith in
      let below : large_in_pdpt s.mem (table_of entry) w ≡ true = ground arith in
      let e = after.kept t i (omega (arith, kind)) small present in
      let kind' = paged.child t i 2 kind small present (paged.top t i kind small) in
      rw (e, present, large_in_pdpt-kept (table_of entry) kind' below) refl

-- What `map_page` does to the memory hangs on the pages only.
module _ (v a p q : ℕ) (same₄ : index_at 39 v ≡ index_at 39 a)
    (same₃ : index_at 30 v ≡ index_at 30 a) (same₂ : index_at 21 v ≡ index_at 21 a)
    (same₁ : index_at 12 v ≡ index_at 12 a) (place : table_of p ≡ table_of q) where
  write_entry_page : (pt : ℕ) (vm : Vm) → (write_entry pt v p vm).pmm ≡ (write_entry pt a q vm).pmm
  unfolding write_entry
  write_entry_page pt vm = rw (same₁, place) refl

  map_in_pd_page : (pd : ℕ) (vm : Vm) → (map_in_pd pd v p vm).pmm ≡ (map_in_pd pd a q vm).pmm
  unfolding map_in_pd
  map_in_pd_page pd vm =
      let i = index_at 21 a in
      let (pt, s) = get_or_create_table pd i vm.pmm in
      elim (Bool-cases (maps_huge (vm.pmm.mem (cell pd i)))) [
        | inl huge ↦ rw (same₂, huge) refl
        | inr small ↦ elim (Bool-cases (pt == 0)) [
          | inl null ↦ rw (same₂, small, null) refl
          | inr some_pt ↦ rw (same₂, small, some_pt) (write_entry_page pt (with_pmm vm s))
        ]
      ]

  map_in_pdpt_page :
      (pdpt : ℕ) (vm : Vm) → (map_in_pdpt pdpt v p vm).pmm ≡ (map_in_pdpt pdpt a q vm).pmm
  unfolding map_in_pdpt
  map_in_pdpt_page pdpt vm =
      let i = index_at 30 a in
      let (pd, s) = get_or_create_table pdpt i vm.pmm in
      elim (Bool-cases (maps_huge (vm.pmm.mem (cell pdpt i)))) [
        | inl huge ↦ rw (same₃, huge) refl
        | inr small ↦ elim (Bool-cases (pd == 0)) [
          | inl null ↦ rw (same₃, small, null) refl
          | inr some_pd ↦ rw (same₃, small, some_pd) (map_in_pd_page pd (with_pmm vm s))
        ]
      ]

  pub map_page_page : (vm : Vm) → (map_page v p vm).pmm ≡ (map_page a q vm).pmm
  unfolding map_page
  map_page_page vm =
      let (pdpt, s) = get_or_create_table (table_of vm.cr3) (index_at 39 a) vm.pmm in
      elim (Bool-cases (pdpt == 0)) [
        | inl null ↦ rw (same₄, null) refl
        | inr some_pdpt ↦ rw (same₄, some_pdpt) (map_in_pdpt_page pdpt (with_pmm vm s))
      ]

map_in_pd-cr3 : (pd v p : ℕ) (vm : Vm) → (map_in_pd pd v p vm).cr3 ≡ vm.cr3
unfolding map_in_pd write_entry
map_in_pd-cr3 pd v p vm = ground arith

map_in_pdpt-cr3 : (pdpt v p : ℕ) (vm : Vm) → (map_in_pdpt pdpt v p vm).cr3 ≡ vm.cr3
unfolding map_in_pdpt
map_in_pdpt-cr3 pdpt v p vm =
    let result = get_or_create_table pdpt (index_at 30 v) vm.pmm in
    ground (arith, map_in_pd-cr3 result.0 v p (with_pmm vm result.1))

pub map_page-cr3 : (v p : ℕ) (vm : Vm) → (map_page v p vm).cr3 ≡ vm.cr3
unfolding map_page
map_page-cr3 v p vm =
    let result = get_or_create_table (table_of vm.cr3) (index_at 39 v) vm.pmm in
    ground (arith, map_in_pdpt-cr3 result.0 v p (with_pmm vm result.1))
