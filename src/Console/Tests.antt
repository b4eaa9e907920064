-- ===== src/Console/Tests.antt =====
-- Instances of the console's theorems, with a font renderer that moves by 8 pixels and draws nothing.
use solstice_os.Base.{ℕ, ◌+◌, ◌*◌, ◌≡◌, refl, ap, ◌∙◌, true, false, List, [], ◌∷◌, none, arith}
use solstice_os.Base.Int.{ℤ, pos, ◌+ℤ◌}
use solstice_os.Util.Bytes.{Bytes}
use solstice_os.Graphics.Windows.{Wm, Window}
use solstice_os.Console.{SsfnDst, Console, console_scroll}
use solstice_os.Console.Cursor.{IsInside, ConsoleOp, put, backspace, wipe, serve, serve-IsInside}
use solstice_os.Console.Rows.{console_scroll-pixel}

abbrev no_window : Window
no_window = record {
  x = pos 0;
  y = pos 0;
  width = 0;
  height = 0;
  title = [];
  buffer = 0;
  layer = 0;
  is_dirty = false;
  in_use = false;
}

abbrev idle : Wm
idle = record {
  windows = λ i. no_window;
  window_count = 0;
  heap_next = 0x1400000;
  memory = λ a. 0;
  have_dirty = false;
  dx0 = pos 0;
  dy0 = pos 0;
  dx1 = pos 0;
  dy1 = pos 0;
  dragging = none;
  drag_offset_x = pos 0;
  drag_offset_y = pos 0;
}

-- Two lines of two characters.
abbrev console : Console
console = record {
  ptr = 0x1000;
  width = 16;
  height = 32;
  pitch = 64;
  x = 0;
  y = 0;
  font_loaded = true;
  dst = record {
    ptr = 0x1000;
    w = pos 16;
    h = pos 32;
    p = 64;
    x = pos 0;
    y = pos 0;
    fg = 1;
    bg = 0;
  };
  pixels = λ a. a;
  window = none;
  wm = idle;
  screen_width = 1024;
  screen_height = 768;
}

abbrev putc : ℕ → SsfnDst → Bytes → SsfnDst × Bytes
putc ch d b = (record d { x = d.x +ℤ pos 8 }, b)

abbrev text : List ConsoleOp
text = put b'a' ∷ put b'b' ∷ backspace ∷ put b'\n' ∷ put b'c' ∷ wipe ∷ put b'd' ∷ []

putc-moves :
    (ch n m : ℕ) (d : SsfnDst) (b : Bytes)
    → d.x ≡ pos n
    → d.y ≡ pos m
    → ((putc ch d b).0.x ≡ pos (n + 8)) × ((putc ch d b).0.y ≡ pos m)
unfolding ◌+ℤ◌
putc-moves ch n m d b at_x at_y = (ap (λ (x : ℤ). x +ℤ pos 8) at_x ∙ ground arith, at_y)

console-IsInside : IsInside console
console-IsInside = record {
  wide = (omega arith, omega arith);
  high = (omega arith, omega arith);
  column = omega arith;
  row = omega arith;
}

serve-IsInside_example : IsInside (serve putc text console)
serve-IsInside_example =
    serve-IsInside putc (λ ch. 8) (λ ch. omega arith) putc-moves text console console-IsInside

console_scroll-pixel_example :
    (console_scroll console).pixels (0x1000 + 3 * 64 + 4 * 5) ≡ 0x1000 + (3 + 16) * 64 + 4 * 5
console_scroll-pixel_example =
    console_scroll-pixel console 3 5
      (record { some_ptr = refl; high = omega arith; fits = omega arith; some_pitch = omega arith })
      (omega arith) (omega arith)
