-- ===== src/Boot/Ready.antt =====
-- What `kernel_entry` of src/kernel/kernel.cpp leaves for the interrupts that it then lets in.
use solstice_os.Base.{ℕ, ◌*◌, ◌/◌, ◌%◌, ◌^◌, ◌<◌, ◌≡◌, refl, true, false, none, some, get_or}
use solstice_os.Io.{Ports}
use solstice_os.Memory.Pmm.{Pmm, init_pmm}
use solstice_os.Memory.Slab.{sizes}
use solstice_os.Memory.Paging.Walk.{translate, is_large}
use solstice_os.Memory.Paging.Ranges.{Needed}
use solstice_os.Interrupts.Tables.{IsGdt, IsGate, IsKernelCode}
use solstice_os.Boot.{FramebufferInfo, Layout, Machine, boot_devices, kernel_entry}

-- The bytes of the framebuffer.
abbrev pub fb_size : FramebufferInfo → ℕ
fb_size fb = fb.height * fb.pitch

module _ {S : Type 0} (layout : Layout) (fb : FramebufferInfo) (m : Machine S) where
  -- The page allocator before the pages are mapped.
  abbrev pub pages : Pmm
  pages = init_pmm layout.desc_at (fb.map_size % 2 ^ 32) (fb.desc_size % 2 ^ 32) m.heap.pmm

  -- The machine after the boot: the descriptor tables; the gates' segment; the memory that the kernel goes
  -- on to use, which leads to itself where no large page covers it; the empty caches of the heap; the first
  -- task; and the screen.
  pub record IsBooted (m' : Machine S) : Type 0 where
    pub gdt : IsGdt layout.gdt_address layout.tss_address m.gdt m'.gdt_ptr m'.gdt m'.tss
    pub gates : (v : ℕ) → v < 61 → IsGate (m'.idt v) (layout.isr_stub_table v)
    pub segments : (v : ℕ) → v < 61 → IsKernelCode (m'.gdt ((m'.idt v).selector / 8))
    pub memory :
        (a : ℕ)
        → a < 2 ^ 48
        → Needed layout.kernel_start layout.kernel_end layout.boot_data.base_address
            (fb_size layout.boot_data)
            a
        → is_large pages.mem m.cr3 a ≡ false
        → translate m'.heap.pmm.mem m.cr3 a ≡ some a
    pub caches :
        (i : ℕ) → i < 9 → (m'.heap.object_size i ≡ get_or sizes i 0) × (m'.heap.first_slab i ≡ 0)
    pub tasking : m'.tasks.tasking_on ≡ true
    pub first_task : (m'.tasks.tasks 0).state ≡ 1
    pub screen :
        (m'.screen.width ≡ fb.width)
        × (m'.screen.height ≡ fb.height)
        × (m'.screen.stride ≡ fb.pitch / 4)

module _ {S : Type 0} (io : Ports S) where
  -- Without the bootloader's data the boot reads through the null pointer.
  kernel_entry-none : (layout : Layout) (m : Machine S) → kernel_entry io layout none m ≡ none
  unfolding kernel_entry boot_devices
  kernel_entry-none layout m = refl
