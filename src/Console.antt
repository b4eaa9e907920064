-- ===== src/Console.antt =====
-- The text console of src/kernel/misc/console.cpp and src/include/console.h: the cursor, scrolling and
-- the hand-over to the font renderer. A pixel is the 32-bit cell at its address, and `uint32_t` sums
-- are written with their remainder.
pub mod Cursor
pub mod Rows
pub mod Print
mod Tests
use solstice_os.Base.{
  ℕ, zero, suc, ◌+◌, ◌-◌, ◌*◌, ◌/◌, ◌%◌, ◌^◌, Bool, true, false, not, ◌||◌, ◌&&◌, if◌then◌else◌,
  ltb, leb, ◌==◌, Option, none, some, List, [], ◌∷◌, get_or,
}
use solstice_os.Base.Int.{ℤ, pos, negsuc, ◌-ℤ◌, ltb_ℤ}
use solstice_os.Base.Store.{update}
use solstice_os.Util.Bytes.{Bytes, memmove}
use solstice_os.Graphics.Windows.{Wm, add_dirty}

-- `ssfn_dst`, where the font renderer draws.
pub record SsfnDst : Type 0 where
  pub ptr : ℕ
  pub w : ℤ
  pub h : ℤ
  pub p : ℕ
  pub x : ℤ
  pub y : ℤ
  pub fg : ℕ
  pub bg : ℕ

-- `g_console` with the other globals that the file uses. `window` is the index of `console_window`, and
-- the screen's size is that of gfx.cpp.
pub record Console : Type 0 where
  pub ptr : ℕ
  pub width : ℕ
  pub height : ℕ
  pub pitch : ℕ
  pub x : ℕ
  pub y : ℕ
  pub font_loaded : Bool
  pub dst : SsfnDst
  pub pixels : Bytes
  pub window : Option ℕ
  pub wm : Wm
  pub screen_width : ℕ
  pub screen_height : ℕ

abbrev pub vga_palette : List ℕ
vga_palette =
    0xFF16091F ∷ 0xFF4C2A85 ∷ 0xFF7FE8A2 ∷ 0xFF8AD8E8 ∷ 0xFFFF8FA3 ∷ 0xFF9D7BEA ∷ 0xFFB894F6
    ∷ 0xFFD9CCF2 ∷ 0xFF6E5A8E ∷ 0xFFC7A6FF ∷ 0xFFA8F0C0 ∷ 0xFFF3B8E8 ∷ 0xFFFF79C6 ∷ 0xFFFF9EDB
    ∷ 0xFFF6E3A1 ∷ 0xFFF5EFFF ∷ []

abbrev pub font_height : ℕ
font_height = 16

abbrev pub font_width : ℕ
font_width = 8

abbrev pub console_bg : ℕ
console_bg = get_or vga_palette 0 0

-- A `uint32_t` as an `int`, and back.
abbrev pub to_int : ℕ → ℤ
to_int n = if ltb n (2 ^ 31) then pos n else negsuc (2 ^ 32 - n - 1)

abbrev pub to_uint32 : ℤ → ℕ
to_uint32 (pos n) = n % 2 ^ 32
to_uint32 (negsuc n) = 2 ^ 32 - 1 - n % 2 ^ 32

unfoldable pub console_dirty : Console → Console
console_dirty c = elim c.window [
  | some i ↦
      let win = c.wm.windows i in
      record c {
        wm = add_dirty win.x (win.y -ℤ pos 24) (pos win.width) (pos (win.height + 24)) c.wm;
      }
  | none ↦ record c {
    wm = add_dirty (pos 0) (pos 0) (pos c.screen_width) (pos c.screen_height) c.wm;
  }
]

-- `fg & 0x0F` is the index in the palette.
unfoldable pub console_set_color : (fg bg : ℕ) → Console → Console
console_set_color fg bg c = record c {
  dst = record c.dst { fg = get_or vga_palette (fg % 16) 0; bg = get_or vga_palette (bg % 16) 0 };
}

-- The loop over `left` pixels from an address on.
unfoldable pub fill_row : (left at color : ℕ) → Bytes → Bytes
fill_row zero at color m = m
fill_row (suc left) at color m = fill_row left (at + 4) color (update m at color)

-- The loop over `left` rows from the row `row` on.
unfoldable pub fill_rows : (left ptr pitch row color : ℕ) → Bytes → Bytes
fill_rows zero ptr pitch row color m = m
fill_rows (suc left) ptr pitch row color m =
    fill_rows left ptr pitch ((row + 1) % 2 ^ 32) color
      (fill_row (pitch / 4) (ptr + row * pitch) color m)

unfoldable pub console_fill_rows : (y0 rows color : ℕ) → Console → Console
console_fill_rows y0 rows color c =
    if c.ptr == 0 then c else record c { pixels = fill_rows rows c.ptr c.pitch y0 color c.pixels }

unfoldable pub console_set_target : (ptr pitch width height : ℕ) → Console → Console
console_set_target ptr pitch width height c = record c {
  ptr = ptr;
  pitch = pitch;
  width = width;
  height = height;
  x = 0;
  y = 0;
  dst = record c.dst { ptr = ptr; p = pitch % 2 ^ 16; w = to_int width; h = to_int height };
}

unfoldable pub console_clear : Console → Console
console_clear c =
    record (console_fill_rows 0 (console_dirty c).height console_bg (console_dirty c)) {
      x = 0;
      y = 0;
    }

unfoldable pub console_init : (fb width height pitch : ℕ) → Console → Console
console_init fb width height pitch c = console_clear (record c {
  ptr = fb;
  width = width;
  height = height;
  pitch = pitch;
  x = 0;
  y = 0;
  font_loaded = true;
  dst = record c.dst {
    ptr = fb;
    w = to_int width;
    h = to_int height;
    p = pitch % 2 ^ 16;
    fg = 0xFFFFFFFF;
    bg = 0;
  };
})

-- The loop that erases a character cell, over `left` rows from the row `row` of the cell on.
unfoldable pub erase_rows : (left row : ℕ) → Console → Bytes → Bytes
erase_rows zero row c m = m
erase_rows (suc left) row c m =
    erase_rows left (row + 1) c
      (fill_row font_width (c.ptr + (c.y + row) % 2 ^ 32 * c.pitch % 2 ^ 32 + c.x * 4) console_bg m)

abbrev pub erase_cell : Console → Console
erase_cell c = record c { pixels = erase_rows font_height 0 c c.pixels }

unfoldable pub console_backspace : Console → Console
console_backspace c =
    let d = console_dirty c in
    if c.ptr == 0
    then c
    else if leb font_width d.x
    then erase_cell (record d { x = d.x - font_width })
    else if leb font_height d.y
    then erase_cell (record d {
      y = d.y - font_height;
      x = (d.width / font_width + 2 ^ 32 - 1) % 2 ^ 32 * font_width % 2 ^ 32;
    })
    else d

-- The last row of text, `g_console.height - FONT_HEIGHT`.
abbrev pub last_row : Console → ℕ
last_row c = (c.height + 2 ^ 32 - font_height) % 2 ^ 32

unfoldable pub console_scroll : Console → Console
console_scroll c =
    let scroll_size = last_row c * c.pitch % 2 ^ 32 in
    let moved = record c {
      pixels = memmove c.ptr (c.ptr + font_height * c.pitch % 2 ^ 32) scroll_size c.pixels;
    } in
    let cleared = console_fill_rows (last_row c) font_height console_bg moved in
    if c.ptr == 0 then c else record cleared {
      y = last_row c;
      x = 0;
      dst = record cleared.dst { x = pos 0; y = to_int (last_row c) };
    }

-- The line is full, and the next one starts.
abbrev pub new_line : Console → Console
new_line c = record c { x = 0; y = (c.y + font_height) % 2 ^ 32 }

-- The font renderer's `ssfn_putc`, which draws a character and moves the place where it draws.
module _ (ssfn_putc : ℕ → SsfnDst → Bytes → SsfnDst × Bytes) where
  -- The character is drawn, and the line is wrapped behind it.
  unfoldable pub draw_char : ℕ → Console → Console
  draw_char ch c =
      let (dst, pixels) = ssfn_putc ch (record c.dst { x = to_int c.x; y = to_int c.y }) c.pixels in
      let drawn = record c {
        dst = dst;
        pixels = pixels;
        x = to_uint32 dst.x;
        y = to_uint32 dst.y;
      } in
      if ltb drawn.width ((drawn.x + font_width) % 2 ^ 32) then new_line drawn else drawn

  unfoldable pub console_putc : ℕ → Console → Console
  console_putc ch c =
      let d = console_dirty c in
      let e = if ch == b'\n' then new_line d else draw_char ch d in
      if (c.ptr == 0) || not c.font_loaded
      then c
      else if ltb e.height ((e.y + font_height) % 2 ^ 32)
      then console_scroll e
      else e

  unfoldable pub console_puts : List ℕ → Console → Console
  console_puts [] c = c
  console_puts (ch ∷ s) c = console_puts s (console_putc ch c)

  -- The width of the glyph, with the state after it is drawn into another buffer.
  unfoldable pub console_draw_glyph :
      (target pitch_bytes : ℕ) (x y : ℤ) (ch fg bg : ℕ) → Console → ℤ × Console
  console_draw_glyph target pitch_bytes x y ch fg bg c =
      let saved = c.dst in
      let (dst, pixels) =
        ssfn_putc ch
          (record {
            ptr = target;
            p = pitch_bytes % 2 ^ 16;
            w = pos (pitch_bytes / 4);
            h = pos 100000;
            x = x;
            y = y;
            fg = fg;
            bg = bg;
          })
          c.pixels in
      let advance = dst.x -ℤ x in
      (if ltb_ℤ (pos 0) advance then advance else pos 8, record c { dst = saved; pixels = pixels })
