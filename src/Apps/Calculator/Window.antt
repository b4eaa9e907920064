-- ===== src/Apps/Calculator/Window.antt =====
-- The window of src/kernel/applications/calculator.cpp: `buf_draw_string`, `draw_all`, `mark_calc_dirty` and
-- a round of the loop of `calculator_task`. The drawing of one character, which goes through
-- `console_draw_glyph` to the font renderer, is a parameter: it gives how far it goes on, and the pixels.
use Prim.Native.Nat.{bit_and}
use solstice_os.Base.{
  ℕ, zero, suc, ◌+◌, ◌-◌, ◌/◌, ◌%◌, ◌^◌, not, ◌&&◌, if◌then◌else◌, ltb, ◌==◌, List, [], ◌∷◌, get_or,
}
use solstice_os.Base.Int.{ℤ, pos, pos_part, ◌+ℤ◌, ◌-ℤ◌, ltb_ℤ}
use solstice_os.Graphics.Screen.{Pixels}
use solstice_os.Graphics.Windows.{Window, Wm, add_dirty}
use solstice_os.Apps.Canvas.{buf_fill_rect}
use solstice_os.Apps.Calculator.{Calc, is_digit, on_button}
use solstice_os.Apps.Calculator.Grid.{display_h, btn_w, btn_h, grid_labels, grid_x, grid_y, on_cell}

-- `calc_window`'s task between two rounds: the last tick and the last buttons that it saw, the
-- calculator, the window's pixels, and the window manager.
pub record CalcTask : Type 0 where
  pub last : ℕ
  pub last_buttons : ℕ
  pub calc : Calc
  pub pixels : Pixels
  pub wm : Wm

module _ (glyph : (width : ℕ) (x y : ℤ) (ch fg bg : ℕ) → Pixels → ℤ × Pixels) where
  -- The loop over the string, from the column `cx` on.
  unfoldable pub buf_draw_string :
      (width : ℕ) (cx y : ℤ) (str : List ℕ) (fg bg : ℕ) → Pixels → Pixels
  buf_draw_string width cx y [] fg bg pixels = pixels
  buf_draw_string width cx y (ch ∷ str) fg bg pixels =
      let (advance, pixels') = glyph width cx y ch fg bg pixels in
      buf_draw_string width (cx +ℤ advance) y str fg bg pixels'

  -- The button number `i`.
  unfoldable pub draw_button : (win : Window) (i : ℕ) → Pixels → Pixels
  draw_button win i pixels =
      let label = get_or grid_labels i 0 in
      let bx = grid_x (i % 4) in
      let by = grid_y (i / 4) in
      let bg = if is_digit label then 0xFF2A1B4A else 0xFF4C2A85 in
      buf_draw_string win.width (pos (bx + btn_w / 2) -ℤ pos 4) (pos (by + btn_h / 2) -ℤ pos 8)
        (label ∷ []) 0xFFF5EFFF bg
        (buf_fill_rect win.width win.height (pos bx) (pos by) (pos btn_w) (pos btn_h) bg pixels)

  -- The two loops over the buttons, with `left` to go from number `i` on.
  unfoldable pub draw_buttons : (win : Window) (left i : ℕ) → Pixels → Pixels
  draw_buttons win zero i pixels = pixels
  draw_buttons win (suc left) i pixels = draw_buttons win left (i + 1) (draw_button win i pixels)

  unfoldable pub draw_all : (win : Window) → Calc → Pixels → Pixels
  draw_all win c pixels =
      let p₁ =
        buf_fill_rect win.width win.height (pos 0) (pos 0) (pos win.width) (pos win.height)
          0xFF16091F pixels in
      let p₂ =
        buf_fill_rect win.width win.height (pos 6) (pos 6) (pos win.width -ℤ pos 12)
          (pos (display_h - 12)) 0xFF0D0617 p₁ in
      let p₃ = buf_draw_string win.width (pos 12) (pos 16) c.expr 0xFFF5EFFF 0xFF0D0617 p₂ in
      draw_buttons win 16 0 p₃

  -- `CALC_TITLEBAR_H` is 24.
  unfoldable pub mark_calc_dirty : (win : Window) → Wm → Wm
  mark_calc_dirty win = add_dirty win.x (win.y -ℤ pos 24) (pos win.width) (pos (win.height + 24))

  -- A button that is pressed, drawn again and marked.
  unfoldable pub press_button : (win : Window) (i : ℕ) → CalcTask → CalcTask
  press_button win i t =
      let c = on_button (get_or grid_labels i 0) t.calc in
      record t { calc = c; pixels = draw_all win c t.pixels; wm = mark_calc_dirty win t.wm }

  -- The two loops over the buttons for a click, at a point inside the window.
  unfoldable pub press_buttons : (win : Window) (left i lx ly : ℕ) → CalcTask → CalcTask
  press_buttons win zero i lx ly t = t
  press_buttons win (suc left) i lx ly t =
      press_buttons win left (i + 1) lx ly
        (if on_cell (i / 4) (i % 4) lx ly then press_button win i t else t)

  -- What `calculator_task` does before its loop.
  unfoldable pub first_round : (win : Window) → CalcTask → CalcTask
  first_round win t = record t {
    pixels = draw_all win t.calc t.pixels;
    wm = mark_calc_dirty win t.wm;
  }

  -- One round of the loop, for the values of the timer and of the mouse that it reads.
  unfoldable pub calc_round :
      (win : Window) (timer_ticks : ℕ) (mouse_x mouse_y : ℤ) (mouse_buttons : ℕ)
      → CalcTask
      → CalcTask
  calc_round win timer_ticks mouse_x mouse_y mouse_buttons t =
      let left_down = not (bit_and mouse_buttons 1 == 0) in
      let left_was_down = not (bit_and t.last_buttons 1 == 0) in
      let t' = record t { last = timer_ticks; last_buttons = mouse_buttons } in
      let lx = mouse_x -ℤ win.x in
      let ly = mouse_y -ℤ win.y in
      if ltb ((timer_ticks + 2 ^ 64 - t.last) % 2 ^ 64) 16
      then t
      else if not (left_down && not left_was_down)
      then t'
      else if not (ltb_ℤ lx (pos 0))
          && ltb_ℤ lx (pos win.width)
          && not (ltb_ℤ ly (pos 0))
          && ltb_ℤ ly (pos win.height)
      then press_buttons win 16 0 (pos_part lx) (pos_part ly) t'
      else t'
