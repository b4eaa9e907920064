-- ===== src/Boot.antt =====
-- The boot of the kernel: `kernel_entry` of src/kernel/kernel.cpp, as the initialisations of the components in
-- their order. The messages that it prints are left out.
pub mod Ready
mod Tests
use solstice_os.Base.{ℕ, ◌%◌, ◌^◌, not, ◌==◌, if◌then◌else◌, Option, none, some, List}
use solstice_os.Io.{Ports}
use solstice_os.Memory.Pmm.{MemMapDescriptor, init_pmm}
use solstice_os.Memory.Slab.{Kheap, init_kmalloc}
use solstice_os.Memory.Paging.{Vm, init_paging}
use solstice_os.Console.{Console, console_init}
use solstice_os.Graphics.Screen.{Screen, gfx_init}
use solstice_os.Input.Gates.{IdtEntry, GdtEntry}
use solstice_os.Input.Ps2.{init_mouse}
use solstice_os.Tasks.{Tasks, init_tasking}
use solstice_os.Text.Serial.{init_serial}
use solstice_os.Interrupts.Tables.{TablePointer, Tss, init_idt, init_gdt}
use solstice_os.Interrupts.Timer.{init_timer, remap_pic}

pub record FramebufferInfo : Type 0 where
  pub base_address : ℕ
  pub width : ℕ
  pub height : ℕ
  pub pitch : ℕ
  pub map_size : ℕ
  pub desc_size : ℕ

-- What the linker, the bootloader and the assembly fix: addresses, the stubs, the copy of the firmware's
-- memory map, and the boot data at 0x9000.
pub record Layout : Type 0 where
  pub gdt_address : ℕ
  pub idt_address : ℕ
  pub tss_address : ℕ
  pub isr_stub_table : ℕ → ℕ
  pub kernel_start : ℕ
  pub kernel_end : ℕ
  pub desc_at : ℕ → MemMapDescriptor
  pub boot_data : FramebufferInfo

-- The state of all components. The heap has the page allocator, and with it the memory.
pub record Machine (S : Type 0) : Type 0 where
  pub ports : S
  pub console : Console
  pub gdt : ℕ → GdtEntry
  pub gdt_ptr : TablePointer
  pub tss : Tss
  pub idt : ℕ → IdtEntry
  pub idt_ptr : TablePointer
  pub heap : Kheap
  pub cr3 : ℕ
  pub flushed : List ℕ
  pub tasks : Tasks
  pub screen : Screen

module _ {S : Type 0} (io : Ports S) (layout : Layout) where
  -- The screen's console, if there is a framebuffer.
  unfoldable pub boot_console : Option FramebufferInfo → Console → Console
  boot_console none c = c
  boot_console (some fb) c =
      if not (fb.base_address == 0)
      then console_init fb.base_address fb.width fb.height fb.pitch c
      else c

  -- The page frames, if there is a memory map. Its sizes are passed on as `uint32_t`.
  unfoldable pub boot_heap : Option FramebufferInfo → Kheap → Kheap
  boot_heap none h = init_kmalloc h
  boot_heap (some fb) h = init_kmalloc (record h {
    pmm = init_pmm layout.desc_at (fb.map_size % 2 ^ 32) (fb.desc_size % 2 ^ 32) h.pmm;
  })

  unfoldable pub boot_paging : Machine S → Machine S
  boot_paging m =
      let fb = layout.boot_data in
      let vm =
        init_paging layout.kernel_start layout.kernel_end fb.base_address fb.height fb.pitch
          (record { cr3 = m.cr3; pmm = m.heap.pmm; flushed = m.flushed }) in
      record m { heap = record m.heap { pmm = vm.pmm }; flushed = vm.flushed }

  unfoldable pub boot_tables : Machine S → Machine S
  boot_tables m =
      let (gdt_ptr, gdt, tss) = init_gdt layout.gdt_address layout.tss_address m.gdt in
      let (idt_ptr, idt) = init_idt layout.idt_address layout.isr_stub_table m.idt in
      record m { gdt = gdt; gdt_ptr = gdt_ptr; tss = tss; idt = idt; idt_ptr = idt_ptr }

  -- The end, where `gfx_init` reads the framebuffer's data without a test for the null pointer: none.
  unfoldable pub boot_devices : Option FramebufferInfo → Machine S → Option (Machine S)
  boot_devices none m = none
  boot_devices (some fb) m = some (record m {
    screen = gfx_init fb.width fb.height fb.pitch m.screen;
    ports = init_mouse io (init_timer io 1000 m.ports);
  })

  unfoldable pub kernel_entry : Option FramebufferInfo → Machine S → Option (Machine S)
  kernel_entry fb m =
      let m₁ = record m { ports = init_serial io m.ports; console = boot_console fb m.console } in
      let m₂ = boot_tables m₁ in
      let m₃ = record m₂ { ports = remap_pic io m₂.ports; heap = boot_heap fb m₂.heap } in
      let m₄ = boot_paging m₃ in boot_devices fb (record m₄ { tasks = init_tasking m₄.tasks })
