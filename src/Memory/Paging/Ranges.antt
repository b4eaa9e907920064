-- ===== src/Memory/Paging/Ranges.antt =====
-- `identity_map_range` and `init_paging` of src/kernel/memory/memory.cpp.
use Prim.Native.Nat.{bit_and}
use solstice_os.Base.{
  ◌∙◌, ap, subst, ℕ, zero, suc, ◌+◌, ◌*◌, ◌-◌, ◌/◌, ◌%◌, ◌^◌, ◌<◌, ◌≤◌, ◌≡◌, ◌⊎◌, Bool, true, false,
  ◌&&◌, ◌||◌, leb, ltb, inl, inr, arith, List, length, some,
}
use mathlib.Core.Path.{refl}
use solstice_os.Memory.Paging.{
  Vm, address_mask, map_page, identity_map_pages, identity_map_range, init_paging,
}
use solstice_os.Memory.Paging.Entries.{and-address_mask}
use solstice_os.Memory.Paging.Tables.{IsPaged}
use solstice_os.Memory.Paging.Walk.{table_of, translate, is_large}
use solstice_os.Memory.Paging.Identity.{
  Mapped, Mapped-none, Mapped-after, in_page, map_page_self-Mapped,
}

-- The addresses from `from` on and below `to`.
abbrev pub in_range : (from to a : ℕ) → Bool
in_range from to a = leb from a && ltb a to

pub identity_map_pages-Mapped :
    (left addr : ℕ) (level : ℕ → ℕ) (vm : Vm) (frames : List ℕ)
    → IsPaged level vm.pmm frames
    → level (table_of vm.cr3) ≡ 4
    → 3 * left ≤ length frames
    → addr % 4096 ≡ 0
    → addr + left * 4096 ≤ 2 ^ 48
    → Mapped
        (in_range addr (addr + left * 4096))
        (3 * left)
        vm
        (identity_map_pages left addr vm)
        frames
unfolding identity_map_pages
identity_map_pages-Mapped zero addr level vm frames paged kind room page small =
    Mapped-none (in_range addr (addr + zero * 4096)) level vm frames paged kind
      (λ a less covered. absurd (ground arith)) (3 * zero)
identity_map_pages-Mapped (suc left) addr level vm frames paged kind room page small =
    let vm₁ = map_page addr addr vm in
    let vm₂ = identity_map_pages left (addr + 4096) vm₁ in
    let first =
      map_page_self-Mapped level vm frames addr paged kind (omega (arith, room))
        (omega (arith, small)) in
    let rest =
      identity_map_pages-Mapped left (addr + 4096) first.level' vm₁ first.frames' first.paged
        (ap (λ (c : ℕ). first.level' (table_of c)) first.cr3 ∙ first.kind)
        (omega (arith, room, first.room)) (omega (arith, page)) (omega (arith, small)) in
    let uses : 3 + 3 * left ≡ 3 * suc left = omega arith in
    subst (λ (n : ℕ). Mapped (in_range addr (addr + suc left * 4096)) n vm vm₂ frames) uses
      (Mapped-after (in_page addr) (in_range (addr + 4096) (addr + 4096 + left * 4096))
        (in_range addr (addr + suc left * 4096)) 3 (3 * left) vm vm₁ vm₂ frames first rest
        (λ a less. ground (arith, page)))

-- The pages that a range of addresses touches.
abbrev pub pages_of : (start_address size : ℕ) → ℕ
pages_of start_address size = (start_address + size + 4095) / 4096 - start_address / 4096

pub identity_map_range-Mapped :
    (start_address size : ℕ) (level : ℕ → ℕ) (vm : Vm) (frames : List ℕ)
    → IsPaged level vm.pmm frames
    → level (table_of vm.cr3) ≡ 4
    → 3 * pages_of start_address size ≤ length frames
    → start_address + size + 4095 < 2 ^ 48
    → Mapped
        (in_range (start_address / 4096 * 4096) ((start_address + size + 4095) / 4096 * 4096))
        (3 * pages_of start_address size)
        vm
        (identity_map_range start_address size vm)
        frames
unfolding identity_map_range
identity_map_range-Mapped start_address size level vm frames paged kind room small =
    let start = bit_and start_address address_mask in
    let end = bit_and ((start_address + size + 4095) % 2 ^ 64) address_mask in
    let s : start ≡ start_address / 4096 * 4096 =
      omega (arith, and-address_mask start_address, small) in
    let e : end ≡ (start_address + size + 4095) / 4096 * 4096 =
      omega (arith, and-address_mask ((start_address + size + 4095) % 2 ^ 64), small) in
    let left : (end - start) / 4096 ≡ pages_of start_address size = omega (arith, s, e) in
    let p = pages_of start_address size in
    let from = start_address / 4096 * 4096 in
    let to : from + p * 4096 ≡ (start_address + size + 4095) / 4096 * 4096 = omega arith in
    rw (left, s)
      (subst (λ (t : ℕ). Mapped (in_range from t) (3 * p) vm (identity_map_pages p from vm) frames)
        to
        (identity_map_pages-Mapped p from level vm frames paged kind room (omega arith)
          (omega (arith, to, small))))

-- A range that is mapped after other pages.
also :
    (vm vm' : Vm) (frames : List ℕ) (covers : ℕ → Bool) (uses : ℕ)
    → Mapped covers uses vm vm' frames
    → (start_address size : ℕ) → uses + 3 * pages_of start_address size ≤ length frames
    → start_address + size + 4095 < 2 ^ 48
    → Mapped
        (λ a.
          covers a
          || in_range (start_address / 4096 * 4096) ((start_address + size + 4095) / 4096 * 4096) a)
        (uses + 3 * pages_of start_address size)
        vm
        (identity_map_range start_address size vm')
        frames
also vm vm' frames covers uses m start_address size room small =
    let range =
      in_range (start_address / 4096 * 4096) ((start_address + size + 4095) / 4096 * 4096) in
    Mapped-after covers range (λ a. covers a || range a) uses (3 * pages_of start_address size) vm
      vm' (identity_map_range start_address size vm') frames m
      (identity_map_range-Mapped start_address size m.level' vm' m.frames' m.paged
        (ap (λ (c : ℕ). m.level' (table_of c)) m.cr3 ∙ m.kind) (omega (arith, m.room, room)) small)
      (λ a less. refl)

-- The addresses that the kernel goes on to use: its own, the framebuffer's, the boot data at 0x9000 and
-- the graphics memory from 16 to 48 MB.
abbrev pub Needed : (kernel_start kernel_end fb_base fb_size a : ℕ) → Type 0
Needed kernel_start kernel_end fb_base fb_size a =
    ((kernel_start ≤ a) × (a < kernel_end))
    ⊎ (((fb_base ≤ a) × (a < fb_base + fb_size))
        ⊎ (((0x9000 ≤ a) × (a < 0xA000)) ⊎ ((0x1000000 ≤ a) × (a < 0x3000000))))

range_covered :
    (start_address size a : ℕ)
    → start_address ≤ a
    → a < start_address + size
    → in_range (start_address / 4096 * 4096) ((start_address + size + 4095) / 4096 * 4096) a ≡ true
range_covered start_address size a from to = ground arith

covered :
    (kernel_start kernel_end fb_base fb_size a : ℕ)
    → Needed kernel_start kernel_end fb_base fb_size a
    → let size = kernel_end - kernel_start in
      (in_range (kernel_start / 4096 * 4096) ((kernel_start + size + 4095) / 4096 * 4096) a
        || in_range (fb_base / 4096 * 4096) ((fb_base + fb_size + 4095) / 4096 * 4096) a
        || in_range 0x9000 0xA000 a
        || in_range 0x1000000 0x3000000 a)
      ≡ true
covered kernel_start kernel_end fb_base fb_size a needed =
    let size = kernel_end - kernel_start in
    elim needed [
      | inl (from, to) ↦
          let e = range_covered kernel_start size a from (omega (arith, from, to)) in
          ground (arith, e)
      | inr (inl (from, to)) ↦ let e = range_covered fb_base fb_size a from to in ground (arith, e)
      | inr (inr (inl (from, to))) ↦
          let e : in_range 0x9000 0xA000 a ≡ true = ground arith in ground (arith, e)
      | inr (inr (inr (from, to))) ↦
          let e : in_range 0x1000000 0x3000000 a ≡ true = ground arith in ground (arith, e)
    ]

-- Three frames for each page of the four ranges.
abbrev pub frames_for : (kernel_start kernel_end fb_base fb_size : ℕ) → ℕ
frames_for kernel_start kernel_end fb_base fb_size =
    3 * pages_of kernel_start (kernel_end - kernel_start)
    + 3 * pages_of fb_base fb_size
    + 3 * 1
    + 3 * 0x2000

-- In a tree of page tables under CR3 with three free frames for each page of the four ranges that
-- `init_paging` maps, which lie in the 48-bit space, after `init_paging` each address of the kernel,
-- the framebuffer, the boot data and the graphics memory leads to itself, unless a large page covers
-- it. Every address that a large page covers leads where it led.
pub init_paging-Needed :
    (level : ℕ → ℕ) (vm : Vm) (frames : List ℕ)
    (kernel_start kernel_end fb_base fb_height fb_pitch a : ℕ)
    → IsPaged level vm.pmm frames
    → level (table_of vm.cr3) ≡ 4
    → kernel_start ≤ kernel_end
    → kernel_end + 4095 < 2 ^ 48
    → fb_base + fb_height * fb_pitch + 4095 < 2 ^ 48
    → frames_for kernel_start kernel_end fb_base (fb_height * fb_pitch) ≤ length frames
    → a < 2 ^ 48
    → let mem' = (init_paging kernel_start kernel_end fb_base fb_height fb_pitch vm).pmm.mem in
      (Needed kernel_start kernel_end fb_base (fb_height * fb_pitch) a
        → is_large vm.pmm.mem vm.cr3 a ≡ false
        → translate mem' vm.cr3 a ≡ some a)
      × ((r : ℕ)
          → is_large vm.pmm.mem vm.cr3 a ≡ true
          → translate vm.pmm.mem vm.cr3 a ≡ some r
          → translate mem' vm.cr3 a ≡ some r)
unfolding init_paging
init_paging-Needed level vm frames kernel_start kernel_end fb_base fb_height fb_pitch a paged kind
      order kernel_small fb_small room inside =
    let size = kernel_end - kernel_start in
    let fb_size = fb_height * fb_pitch in
    let k : (kernel_end + 2 ^ 64 - kernel_start) % 2 ^ 64 ≡ size =
      omega (arith, order, kernel_small) in
    let f : fb_size % 2 ^ 64 ≡ fb_size = omega (arith, fb_small) in
    let vm₁ = identity_map_range kernel_start size vm in
    let vm₂ = identity_map_range fb_base fb_size vm₁ in
    let vm₃ = identity_map_range 0x9000 4096 vm₂ in
    let vm₄ = identity_map_range 0x1000000 0x2000000 vm₃ in
    let m₁ =
      identity_map_range-Mapped kernel_start size level vm frames paged kind (omega (arith, room))
        (omega (arith, order, kernel_small)) in
    let m₂ =
      also vm vm₁ frames _ _ m₁ fb_base fb_size (omega (arith, room)) (omega (arith, fb_small)) in
    let m₃ = also vm vm₂ frames _ _ m₂ 0x9000 4096 (omega (arith, room)) (omega arith) in
    let m₄ = also vm vm₃ frames _ _ m₃ 0x1000000 0x2000000 (omega (arith, room)) (omega arith) in
    rw (k, f)
      (
        λ needed no_large.
            m₄.inside a inside (covered kernel_start kernel_end fb_base fb_size a needed) no_large,
        λ r large was. m₄.outside a r inside (inr large) was,
      )
