-- ===== src/Boot/Tests.antt =====
-- An instance of the theorem on the boot.
use solstice_os.Base.{ℕ, ◌+◌, ◌%◌, none, false, []}
use solstice_os.Base.Int.{pos}
use solstice_os.Io.{Ports}
use solstice_os.Memory.Paging.Sample.{sample_pmm}
use solstice_os.Interrupts.Tables.{cleared_tss}
use solstice_os.Boot.{FramebufferInfo, Layout, Machine}

-- Ports that read as 0.
abbrev silent : Ports ℕ
silent = record {
  inb = λ p s. (0, s);
  inw = λ p s. (0, s);
  outb = λ p v s. s + 1;
  outw = λ p v s. s + 1;
}

-- A framebuffer of one row, and a map that is empty: the frames are those of the sample.
abbrev small_fb : FramebufferInfo
small_fb = record {
  base_address = 0xE0000000;
  width = 1024;
  height = 1;
  pitch = 4096;
  map_size = 0;
  desc_size = 0;
}

abbrev small_layout : Layout
small_layout = record {
  gdt_address = 0x100100;
  idt_address = 0x100200;
  tss_address = 0x100300;
  isr_stub_table = λ i. 0x100400 + i % 61;
  kernel_start = 0x100000;
  kernel_end = 0x101000;
  desc_at = λ a. record { type = 0; physical_start = 0; number_of_pages = 0 };
  boot_data = small_fb;
}

abbrev cold : Machine ℕ
cold = record {
  ports = 0;
  console = record {
    ptr = 0;
    width = 0;
    height = 0;
    pitch = 0;
    x = 0;
    y = 0;
    font_loaded = false;
    dst = record { ptr = 0; p = 0; w = pos 0; h = pos 0; x = pos 0; y = pos 0; fg = 0; bg = 0 };
    pixels = λ a. 0;
    window = none;
    wm = record {
      windows = λ i. record {
        x = pos 0;
        y = pos 0;
        width = 0;
        height = 0;
        title = [];
        buffer = 0;
        layer = 0;
        is_dirty = false;
        in_use = false;
      };
      window_count = 0;
      heap_next = 0x1400000;
      memory = λ i. 0;
      have_dirty = false;
      dx0 = pos 0;
      dy0 = pos 0;
      dx1 = pos 0;
      dy1 = pos 0;
      dragging = none;
      drag_offset_x = pos 0;
      drag_offset_y = pos 0;
    };
    screen_width = 0;
    screen_height = 0;
  };
  gdt = λ i. record {
    limit = 0;
    base_low = 0;
    base_middle = 0;
    access = 0;
    flags = 0;
    base_high = 0;
  };
  gdt_ptr = record { limit = 0; base = 0 };
  tss = cleared_tss;
  idt = λ i. record {
    isr_low = 0;
    selector = 0;
    ist = 0;
    flags = 0;
    isr_mid = 0;
    isr_high = 0;
    reserved = 0;
  };
  idt_ptr = record { limit = 0; base = 0 };
  heap = record { pmm = sample_pmm; object_size = λ i. 0; first_slab = λ i. 0 };
  cr3 = 0x1000;
  flushed = [];
  tasks = record { tasks = λ i. record { rsp = 0; state = 0 }; current = 0; tasking_on = false };
  screen = record {
    width = 0;
    height = 0;
    stride = 0;
    clip_x0 = pos 0;
    clip_y0 = pos 0;
    clip_x1 = pos 0x40000000;
    clip_y1 = pos 0x40000000;
    backbuffer = λ i. 0;
    framebuffer = λ i. 0;
  };
}
