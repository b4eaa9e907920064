-- ===== src/Memory/Paging.antt =====
-- The page tables of src/kernel/memory/memory.cpp, from `get_or_create_table` to `init_paging`. They
-- lie in the memory that the page allocator manages: the entry `i` of the table at `t` is the 64-bit
-- cell at `t + 8 * i`.
pub mod Entries
pub mod Tables
mod NewTable
pub mod Create
pub mod Walk
pub mod Map
pub mod Large
pub mod Others
pub mod Range
pub mod Identity
pub mod Ranges
pub mod Sample
mod Tests
use Prim.Native.Nat.{bit_and, bit_or}
use solstice_os.Base.{
  ℕ, zero, suc, ◌+◌, ◌-◌, ◌*◌, ◌/◌, ◌%◌, ◌^◌, Bool, true, false, not, ◌&&◌, if◌then◌else◌, ltb,
  ◌==◌, List, ◌∷◌,
}
use solstice_os.Base.Store.{update}
use solstice_os.Memory.Pmm.{Pmm, pmm_alloc}

-- `cr3` is the processor's register, and `flushed` has the addresses of the `invlpg` instructions, the
-- last one in front.
pub record Vm : Type 0 where
  pub cr3 : ℕ
  pub pmm : Pmm
  pub flushed : List ℕ

abbrev pub cell : (table index : ℕ) → ℕ
cell table index = table + 8 * index

abbrev pub address_mask : ℕ
address_mask = 0x0000FFFFFFFFF000

-- The loop over the entries of a new table.
pub zero_cells : (table left i : ℕ) → (ℕ → ℕ) → ℕ → ℕ
zero_cells table zero i m = m
zero_cells table (suc left) i m = zero_cells table left (i + 1) (update m (cell table i) 0)

-- The address of the table below an entry, 0 if there is none and no frame for it.
unfoldable pub get_or_create_table : (table index : ℕ) → Pmm → ℕ × Pmm
get_or_create_table table index s =
    let entry = s.mem (cell table index) in
    let (new_frame, s') = pmm_alloc s in
    let m = update (zero_cells new_frame 512 0 s'.mem) (cell table index) (bit_or new_frame 3) in
    if not (bit_and entry 1 == 0)
    then (bit_and entry address_mask, s)
    else if new_frame == 0
    then (0, s')
    else (bit_and (m (cell table index)) address_mask, record s' { mem = m })

-- `PAGE_HUGE`, the bit of an entry that maps a large page.
abbrev pub page_huge : ℕ
page_huge = 2 ^ 7

-- The test for an entry that is present and maps a large page.
unfoldable pub maps_huge : ℕ → Bool
maps_huge entry = not (bit_and entry 1 == 0) && not (bit_and entry page_huge == 0)

-- The nine bits of an address that select the entry of a table.
abbrev pub index_at : (shift virtual_address : ℕ) → ℕ
index_at shift virtual_address = bit_and (virtual_address / 2 ^ shift) 0x1FF

abbrev pub with_pmm : Vm → Pmm → Vm
with_pmm vm s = record vm { pmm = s }

-- The end of `map_page`, with the last table.
unfoldable pub write_entry : (pt virtual_address physical_address : ℕ) → Vm → Vm
write_entry pt virtual_address physical_address vm = record vm {
  pmm = record vm.pmm {
    mem =
        update vm.pmm.mem (cell pt (index_at 12 virtual_address))
          (bit_or (bit_and physical_address address_mask) 3);
  };
  flushed = virtual_address ∷ vm.flushed;
}

-- `map_page` from the page directory on.
unfoldable pub map_in_pd : (pd virtual_address physical_address : ℕ) → Vm → Vm
map_in_pd pd virtual_address physical_address vm =
    let index = index_at 21 virtual_address in
    let (pt, s) = get_or_create_table pd index vm.pmm in
    if maps_huge (vm.pmm.mem (cell pd index))
    then vm
    else if pt == 0
    then with_pmm vm s
    else write_entry pt virtual_address physical_address (with_pmm vm s)

-- `map_page` from the page directory pointer table on.
unfoldable pub map_in_pdpt : (pdpt virtual_address physical_address : ℕ) → Vm → Vm
map_in_pdpt pdpt virtual_address physical_address vm =
    let index = index_at 30 virtual_address in
    let (pd, s) = get_or_create_table pdpt index vm.pmm in
    if maps_huge (vm.pmm.mem (cell pdpt index))
    then vm
    else if pd == 0
    then with_pmm vm s
    else map_in_pd pd virtual_address physical_address (with_pmm vm s)

unfoldable pub map_page : (virtual_address physical_address : ℕ) → Vm → Vm
map_page virtual_address physical_address vm =
    let pml4 = bit_and vm.cr3 address_mask in
    let (pdpt, s) = get_or_create_table pml4 (index_at 39 virtual_address) vm.pmm in
    if pdpt == 0
    then with_pmm vm s
    else map_in_pdpt pdpt virtual_address physical_address (with_pmm vm s)

-- The loop of `identity_map_range`, with `left` pages to go.
unfoldable pub identity_map_pages : (left addr : ℕ) → Vm → Vm
identity_map_pages zero addr vm = vm
identity_map_pages (suc left) addr vm =
    identity_map_pages left (addr + 4096) (map_page addr addr vm)

-- The loop goes from `start` to `end` in steps of a page; both are multiples of 4096 below 2 ^ 48.
unfoldable pub identity_map_range : (start_address size : ℕ) → Vm → Vm
unfolding identity_map_pages
identity_map_range start_address size vm =
    let start = bit_and start_address address_mask in
    let end = bit_and ((start_address + size + 4095) % 2 ^ 64) address_mask in
    identity_map_pages ((end - start) / 4096) start vm

-- The kernel's ends are symbols of the linker, and the framebuffer's data comes from the bootloader.
unfoldable pub init_paging : (kernel_start kernel_end fb_base fb_height fb_pitch : ℕ) → Vm → Vm
init_paging kernel_start kernel_end fb_base fb_height fb_pitch vm =
    let kernel_size = (kernel_end + 2 ^ 64 - kernel_start) % 2 ^ 64 in
    let vm₁ = identity_map_range kernel_start kernel_size vm in
    let vm₂ = identity_map_range fb_base (fb_height * fb_pitch % 2 ^ 64) vm₁ in
    identity_map_range 0x1000000 0x2000000 (identity_map_range 0x9000 4096 vm₂)
