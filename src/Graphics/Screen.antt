-- ===== src/Graphics/Screen.antt =====
-- Drawing: `gfx_set_clip`, `gfx_init`, `gfx_fill_rect`, `gfx_draw_rect`, `gfx_clear`, `gfx_present` and
-- `gfx_present_rect` of src/kernel/wm/gfx.cpp. A buffer is a function from the index of a pixel to its
-- color.
use solstice_os.Base.{ℕ, zero, suc, ◌+◌, ◌*◌, ◌/◌, ◌%◌, ◌^◌, not, ◌||◌, if◌then◌else◌}
use solstice_os.Base.Int.{ℤ, pos, pos_part, ◌+ℤ◌, ◌-ℤ◌, ltb_ℤ}
use solstice_os.Base.Store.{update}

abbrev pub Pixels : Type 0
Pixels = ℕ → ℕ

-- `stride` is `fb_pitch / 4`, the pixels in a row of the buffers.
pub record Screen : Type 0 where
  pub width : ℕ
  pub height : ℕ
  pub stride : ℕ
  pub clip_x0 : ℤ
  pub clip_y0 : ℤ
  pub clip_x1 : ℤ
  pub clip_y1 : ℤ
  pub backbuffer : Pixels
  pub framebuffer : Pixels

unfoldable pub set_clip : (x y w h : ℤ) → Screen → Screen
set_clip x y w h s = record s { clip_x0 = x; clip_y0 = y; clip_x1 = x +ℤ w; clip_y1 = y +ℤ h }

unfoldable pub reset_clip : Screen → Screen
reset_clip s = record s {
  clip_x0 = pos 0;
  clip_y0 = pos 0;
  clip_x1 = pos s.width;
  clip_y1 = pos s.height;
}

-- `if (v < lo) v = lo;` and `if (v > hi) v = hi;`.
abbrev pub raise : ℤ → ℤ → ℤ
raise lo v = if ltb_ℤ v lo then lo else v

abbrev pub lower : ℤ → ℤ → ℤ
lower hi v = if ltb_ℤ hi v then hi else v

-- The inner loop over `left` pixels from the index `at` on, which get the colors of `src`.
unfoldable pub paint_row : (left at : ℕ) → (src dst : Pixels) → Pixels
paint_row zero at src dst = dst
paint_row (suc left) at src dst = paint_row left (at + 1) src (update dst at (src at))

-- The loop over `left` rows from the row `y` on.
unfoldable pub paint_rows : (left stride x w y : ℕ) → (src dst : Pixels) → Pixels
paint_rows zero stride x w y src dst = dst
paint_rows (suc left) stride x w y src dst =
    paint_rows left stride x w (y + 1) src (paint_row w (y * stride + x) src dst)

-- The back buffer is cleared byte by byte; a row has whole pixels.
unfoldable pub gfx_init : (width height pitch : ℕ) → Screen → Screen
gfx_init width height pitch s = record s {
  width = width;
  height = height;
  stride = pitch / 4;
  backbuffer = paint_row (height * pitch % 2 ^ 64 / 4) 0 (λ i. 0) s.backbuffer;
}

unfoldable pub fill_rect : (x y w h : ℤ) (color : ℕ) → Screen → Screen
fill_rect x y w h color s =
    let x0 = raise s.clip_x0 (raise (pos 0) x) in
    let y0 = raise s.clip_y0 (raise (pos 0) y) in
    let x1 = lower s.clip_x1 (lower (pos s.width) (x +ℤ w)) in
    let y1 = lower s.clip_y1 (lower (pos s.height) (y +ℤ h)) in
    let w' = x1 -ℤ x0 in
    let h' = y1 -ℤ y0 in
    if not (ltb_ℤ (pos 0) w') || not (ltb_ℤ (pos 0) h') then s else record s {
      backbuffer =
          paint_rows (pos_part h') s.stride (pos_part x0) (pos_part w') (pos_part y0) (λ i. color)
            s.backbuffer;
    }

unfoldable pub draw_rect : (x y w h thickness : ℤ) (color : ℕ) → Screen → Screen
draw_rect x y w h thickness color s =
    let s₁ = fill_rect x y w thickness color s in
    let s₂ = fill_rect x (y +ℤ h -ℤ thickness) w thickness color s₁ in
    let s₃ = fill_rect x y thickness h color s₂ in
    fill_rect (x +ℤ w -ℤ thickness) y thickness h color s₃

unfoldable pub clear : (color : ℕ) → Screen → Screen
clear color s = record s {
  backbuffer = paint_rows s.height s.stride 0 s.width 0 (λ i. color) s.backbuffer;
}

-- The rows are copied with the bytes behind the screen's width.
unfoldable pub present : Screen → Screen
present s = record s {
  framebuffer = paint_rows s.height s.stride 0 s.stride 0 s.backbuffer s.framebuffer;
}

unfoldable pub present_rect : (x y w h : ℤ) → Screen → Screen
present_rect x y w h s =
    let left = ltb_ℤ x (pos 0) in
    let above = ltb_ℤ y (pos 0) in
    let w₁ = if left then w +ℤ x else w in
    let x' = if left then pos 0 else x in
    let h₁ = if above then h +ℤ y else h in
    let y' = if above then pos 0 else y in
    let w' = if ltb_ℤ (pos s.width) (x' +ℤ w₁) then pos s.width -ℤ x' else w₁ in
    let h' = if ltb_ℤ (pos s.height) (y' +ℤ h₁) then pos s.height -ℤ y' else h₁ in
    if not (ltb_ℤ (pos 0) w') || not (ltb_ℤ (pos 0) h') then s else record s {
      framebuffer =
          paint_rows (pos_part h') s.stride (pos_part x') (pos_part w') (pos_part y') s.backbuffer
            s.framebuffer;
    }
