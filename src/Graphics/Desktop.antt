-- ===== src/Graphics/Desktop.antt =====
-- Drawing the windows and one round of the window manager's task, of src/kernel/wm/wm.cpp.
use solstice_os.Base.{
  ℕ, zero, suc, ◌+◌, ◌-◌, ◌*◌, ◌^◌, ◌%◌, false, not, ◌&&◌, if◌then◌else◌, ltb, ◌==◌, List,
}
use solstice_os.Base.Int.{ℤ, pos, ◌+ℤ◌, ◌-ℤ◌, ltb_ℤ}
use solstice_os.Graphics.Screen.{
  Screen, fill_rect, draw_rect, set_clip, reset_clip, clear, present, present_rect,
}
use solstice_os.Graphics.Windows.{Window, Wm, titlebar_h, add_dirty, press, drag}
use solstice_os.Graphics.Order.{draw_order}
use solstice_os.Graphics.Shapes.{blit, draw_cursor}

-- The globals of the task, with the mouse's and the timer's that it reads.
pub record Desktop : Type 0 where
  pub wm : Wm
  pub screen : Screen
  pub last : ℕ
  pub last_mx : ℤ
  pub last_my : ℤ
  pub last_buttons : ℕ

-- The area of the pointer, where it was and where it is, when it has moved.
unfoldable pub mark_pointer : (mouse_x mouse_y : ℤ) → Desktop → Desktop
mark_pointer mouse_x mouse_y d =
    let same_x = not (ltb_ℤ mouse_x d.last_mx) && not (ltb_ℤ d.last_mx mouse_x) in
    let same_y = not (ltb_ℤ mouse_y d.last_my) && not (ltb_ℤ d.last_my mouse_y) in
    let old = add_dirty (d.last_mx -ℤ pos 2) (d.last_my -ℤ pos 2) (pos 18) (pos 18) d.wm in
    let new = add_dirty (mouse_x -ℤ pos 2) (mouse_y -ℤ pos 2) (pos 18) (pos 18) old in
    if same_x && same_y then d else record d { wm = new; last_mx = mouse_x; last_my = mouse_y }

-- `gfx_draw_string` draws with the font renderer.
module _ (draw_string : (x y : ℤ) (text : List ℕ) (fg bg : ℕ) → Screen → Screen) where
  unfoldable pub draw_window : (memory : ℕ → ℕ) → Window → Screen → Screen
  draw_window memory win s =
      let bar_y = win.y -ℤ pos titlebar_h in
      let s₁ = fill_rect win.x bar_y (pos win.width) (pos titlebar_h) 0xFF4C2A85 s in
      let s₂ = draw_string (win.x +ℤ pos 6) (bar_y +ℤ pos 4) win.title 0xFFF5EFFF 0xFF4C2A85 s₁ in
      let s₃ =
        fill_rect (win.x +ℤ pos win.width -ℤ pos titlebar_h +ℤ pos 4) (bar_y +ℤ pos 4)
          (pos (titlebar_h - 8)) (pos (titlebar_h - 8)) 0xFFFF8FA3 s₂ in
      let s₄ = blit win.x win.y (λ i. memory (win.buffer + 4 * i)) win.width win.height s₃ in
      draw_rect (win.x -ℤ pos 1) (bar_y -ℤ pos 1) (pos (win.width + 2))
        (pos (win.height + titlebar_h + 2)) (pos 1) 0xFF9D7BEA s₄

  -- The loop over the sorted windows, at `k` with `left` to go.
  unfoldable pub draw_windows : (left k : ℕ) (order : ℕ → ℕ) → Wm → Screen → Screen
  draw_windows zero k order wm s = s
  draw_windows (suc left) k order wm s =
      draw_windows left (k + 1) order wm (draw_window wm.memory (wm.windows (order k)) s)

  unfoldable pub wm_draw : Wm → Screen → Screen
  wm_draw wm s = let (n, order) = draw_order wm.windows (λ k. 0) in draw_windows n 0 order wm s

  -- What `wm_task` draws before its loop.
  unfoldable pub first_draw : (mouse_x mouse_y : ℤ) → Wm → Screen → Screen
  first_draw mouse_x mouse_y wm s =
      present (draw_cursor mouse_x mouse_y (wm_draw wm (clear 0xff16091f (reset_clip s))))

  -- A dirty rectangle is cut to the screen and drawn again.
  unfoldable pub redraw : (mouse_x mouse_y : ℤ) → Desktop → Desktop
  redraw mouse_x mouse_y d =
      let wm = d.wm in
      let x0 = if ltb_ℤ wm.dx0 (pos 0) then pos 0 else wm.dx0 in
      let y0 = if ltb_ℤ wm.dy0 (pos 0) then pos 0 else wm.dy0 in
      let x1 = if ltb_ℤ (pos d.screen.width) wm.dx1 then pos d.screen.width else wm.dx1 in
      let y1 = if ltb_ℤ (pos d.screen.height) wm.dy1 then pos d.screen.height else wm.dy1 in
      let rw' = x1 -ℤ x0 in
      let rh = y1 -ℤ y0 in
      let cut = record wm { dx0 = x0; dy0 = y0; dx1 = x1; dy1 = y1; have_dirty = false } in
      let s₁ = fill_rect x0 y0 rw' rh 0xff16091f (set_clip x0 y0 rw' rh d.screen) in
      let s₂ = reset_clip (draw_cursor mouse_x mouse_y (wm_draw cut s₁)) in
      if not wm.have_dirty then d else record d { wm = cut; screen = present_rect x0 y0 rw' rh s₂ }

  -- One round of the loop of `wm_task`, for the timer's and the mouse's values at its start.
  unfoldable pub wm_round :
      (timer_ticks : ℕ) (mouse_x mouse_y : ℤ) (mouse_buttons : ℕ) → Desktop → Desktop
  wm_round timer_ticks mouse_x mouse_y mouse_buttons d =
      let left_down = mouse_buttons % 2 == 1 in
      let left_was_down = d.last_buttons % 2 == 1 in
      let pressed = press left_down left_was_down mouse_x mouse_y d.wm in
      let dragged = drag d.screen.width d.screen.height mouse_x mouse_y pressed in
      let marked =
        mark_pointer mouse_x mouse_y
          (record d { wm = dragged; last = timer_ticks; last_buttons = mouse_buttons }) in
      if ltb ((timer_ticks + 2 ^ 64 - d.last) % 2 ^ 64) 16 then d else redraw mouse_x mouse_y marked
