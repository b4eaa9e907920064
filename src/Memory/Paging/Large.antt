-- ===== src/Memory/Paging/Large.antt =====
-- `map_page` of src/kernel/memory/memory.cpp for an address that a large page covers.
use solstice_os.Base.{ℕ, ◌≡◌, refl, true, arith, ◌==◌, inl, inr, Bool-cases}
use solstice_os.Memory.Pmm.{Pmm}
use solstice_os.Memory.Paging.{
  Vm, cell, get_or_create_table, maps_huge, index_at, map_in_pd, map_in_pdpt, map_page,
}
use solstice_os.Memory.Paging.Tables.{is_present}
use solstice_os.Memory.Paging.Walk.{table_of, large_in_pd, large_in_pdpt, is_large}

get_or_create_table-present :
    (t i : ℕ) (s : Pmm)
    → is_present (s.mem (cell t i)) ≡ true
    → get_or_create_table t i s ≡ (table_of (s.mem (cell t i)), s)
unfolding get_or_create_table
get_or_create_table-present t i s present = rw present refl

map_in_pd_large :
    (pd v p : ℕ) (vm : Vm) → large_in_pd vm.pmm.mem pd v ≡ true → map_in_pd pd v p vm ≡ vm
unfolding map_in_pd large_in_pd
map_in_pd_large pd v p vm large = rw large refl

map_in_pdpt_large :
    (pdpt v p : ℕ) (vm : Vm) → large_in_pdpt vm.pmm.mem pdpt v ≡ true → map_in_pdpt pdpt v p vm ≡ vm
unfolding map_in_pdpt large_in_pdpt
map_in_pdpt_large pdpt v p vm large =
    let entry = vm.pmm.mem (cell pdpt (index_at 30 v)) in
    elim (Bool-cases (maps_huge entry)) [
      | inl huge ↦ rw huge refl
      | inr small ↦
          let present : is_present entry ≡ true = ground arith in
          let below : large_in_pd vm.pmm.mem (table_of entry) v ≡ true = ground arith in
          let step = get_or_create_table-present pdpt (index_at 30 v) vm.pmm present in
          elim (Bool-cases (table_of entry == 0)) [
            | inl null ↦ rw (small, step, null) refl
            | inr some_pd ↦
                rw (small, step, some_pd) (map_in_pd_large (table_of entry) v p vm below)
          ]
    ]

-- `map_page` changes nothing for an address that a large page covers.
pub map_page_large :
    (virtual_address physical_address : ℕ) (vm : Vm)
    → is_large vm.pmm.mem vm.cr3 virtual_address ≡ true
    → map_page virtual_address physical_address vm ≡ vm
unfolding map_page is_large
map_page_large v p vm large =
    let pml4 = table_of vm.cr3 in
    let entry = vm.pmm.mem (cell pml4 (index_at 39 v)) in
    let present : is_present entry ≡ true = ground arith in
    let below : large_in_pdpt vm.pmm.mem (table_of entry) v ≡ true = ground arith in
    let step = get_or_create_table-present pml4 (index_at 39 v) vm.pmm present in
    elim (Bool-cases (table_of entry == 0)) [
      | inl null ↦ rw (step, null) refl
      | inr some_pdpt ↦ rw (step, some_pdpt) (map_in_pdpt_large (table_of entry) v p vm below)
    ]
