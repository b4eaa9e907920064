-- ===== src/Graphics/Shapes.antt =====
-- Circles, copies of windows and the cursor of src/kernel/wm/gfx.cpp.
use solstice_os.Base.{
  true, false, refl, ◌≡◌, arith, Bool-cases, inl, inr, inr, inl, Bool-cases, arith, true, ◌≡◌, ℕ,
  zero, suc, ◌+◌, ◌-◌, ◌*◌, Bool, not, ◌||◌, ◌&&◌, if◌then◌else◌,
}
use solstice_os.Base.Int.{◌≤ℤ◌, ℤ, pos, pos_part, ◌+ℤ◌, ◌-ℤ◌, ◌*ℤ◌, ltb_ℤ, int_laws, +ℤ_parts}
use solstice_os.Base.Store.{update}
use solstice_os.Graphics.Screen.{Pixels, Screen, fill_rect}

-- `gfx_draw_circle_row`. The middle has the fill color, and its ends the border's.
unfoldable pub circle_row :
    (center_x row_y half_width thickness : ℤ) (fill_color border_color : ℕ) → Screen → Screen
circle_row center_x row_y half_width thickness fill_color border_color s =
    let start_x = center_x -ℤ half_width in
    let total_width = pos 2 *ℤ half_width +ℤ pos 1 in
    let solid =
      not (ltb_ℤ thickness (half_width +ℤ pos 1))
      || (not (ltb_ℤ thickness (pos 0)) && not (ltb_ℤ (pos 0) thickness)) in
    if ltb_ℤ half_width (pos 0)
    then s
    else if solid
    then fill_rect start_x row_y total_width (pos 1) border_color s
    else fill_rect (start_x +ℤ total_width -ℤ thickness) row_y thickness (pos 1) border_color (
        fill_rect (start_x +ℤ thickness) row_y (total_width -ℤ pos 2 *ℤ thickness) (pos 1)
          fill_color (fill_rect start_x row_y thickness (pos 1) border_color s))

module _ (xc yc thickness : ℤ) (fill_color border_color : ℕ) where
  -- The four rows for one point of the outline.
  unfoldable pub circle_rows : (x y : ℤ) → Screen → Screen
  circle_rows x y s =
      let s₁ = circle_row xc (yc +ℤ y) x thickness fill_color border_color s in
      let s₂ = circle_row xc (yc -ℤ y) x thickness fill_color border_color s₁ in
      let s₃ = circle_row xc (yc +ℤ x) y thickness fill_color border_color s₂ in
      circle_row xc (yc -ℤ x) y thickness fill_color border_color s₃

  -- The loop `while (y >= x)`, with at most `fuel` rounds.
  unfoldable pub circle_loop : (fuel : ℕ) → (x y d : ℤ) → Screen → Screen
  circle_loop zero x y d s = s
  circle_loop (suc fuel) x y d s =
      let inner = ltb_ℤ d (pos 0) in
      let d' = if inner then d +ℤ pos 4 *ℤ x +ℤ pos 6 else d +ℤ pos 4 *ℤ (x -ℤ y) +ℤ pos 10 in
      let y' = if inner then y else y -ℤ pos 1 in
      let x' = x +ℤ pos 1 in
      let rest = circle_loop fuel x' y' d' (circle_rows x' y' s) in if ltb_ℤ y x then s else rest

-- A loop from x = 0 and y = radius takes at most radius + 1 rounds.
unfoldable pub draw_circle :
    (xc yc radius thickness : ℤ) (fill_color border_color : ℕ) → Screen → Screen
draw_circle xc yc radius thickness fill_color border_color s =
    let thickness' = if ltb_ℤ thickness (pos 0) then pos 0 else thickness in
    let d = pos 3 -ℤ pos 2 *ℤ radius in
    let drawn = circle_rows xc yc thickness' fill_color border_color (pos 0) radius s in
    if ltb_ℤ radius (pos 0)
    then s
    else circle_loop xc yc thickness' fill_color border_color (pos_part radius + 1) (pos 0) radius d
        drawn

-- A coordinate that `gfx_blit` draws at: on the screen, and inside the clip.
abbrev pub is_shown : (size : ℕ) (clip_0 clip_1 : ℤ) → ℤ → Bool
is_shown size clip_0 clip_1 p =
    not (ltb_ℤ p (pos 0)) && ltb_ℤ p (pos size) && not (ltb_ℤ p clip_0) && ltb_ℤ p clip_1

-- The loop over the columns, at `col` with `left` to go. The row of the source starts at `src_at`.
unfoldable pub blit_row :
    (left col : ℕ) (dst_x : ℤ) (row_at src_at : ℕ) (src : Pixels) → Screen → Pixels → Pixels
blit_row zero col dst_x row_at src_at src s b = b
blit_row (suc left) col dst_x row_at src_at src s b =
    let px = dst_x +ℤ pos col in
    let painted = update b (row_at + pos_part px) (src (src_at + col)) in
    blit_row left (col + 1) dst_x row_at src_at src s
      (if is_shown s.width s.clip_x0 s.clip_x1 px then painted else b)

-- The loop over the rows, at `row` with `left` to go.
unfoldable pub blit_rows :
    (left row : ℕ) (dst_x dst_y : ℤ) (src : Pixels) (w : ℕ) → Screen → Pixels → Pixels
blit_rows zero row dst_x dst_y src w s b = b
blit_rows (suc left) row dst_x dst_y src w s b =
    let py = dst_y +ℤ pos row in
    let painted = blit_row w 0 dst_x (pos_part py * s.stride) (row * w) src s b in
    blit_rows left (row + 1) dst_x dst_y src w s
      (if is_shown s.height s.clip_y0 s.clip_y1 py then painted else b)

unfoldable pub blit : (dst_x dst_y : ℤ) (src : Pixels) (w h : ℕ) → Screen → Screen
blit dst_x dst_y src w h s = record s {
  backbuffer = blit_rows h 0 dst_x dst_y src w s s.backbuffer;
}

-- The loops of `gfx_draw_cursor`, at the row `r` with `left` to go: each row is one pixel shorter.
unfoldable pub cursor_rows : (left r size margin : ℕ) (mx my : ℤ) (color : ℕ) → Screen → Screen
cursor_rows zero r size margin mx my color s = s
cursor_rows (suc left) r size margin mx my color s =
    cursor_rows left (r + 1) size margin mx my color (
      fill_rect (mx -ℤ pos margin) (my +ℤ pos r -ℤ pos margin) (pos (size - r + 2 * margin)) (pos 1)
        color s)

unfoldable pub draw_cursor : (mouse_x mouse_y : ℤ) → Screen → Screen
draw_cursor mouse_x mouse_y s =
    cursor_rows 12 0 12 0 mouse_x mouse_y 0xFFFFFFFF
      (cursor_rows 13 0 13 1 mouse_x mouse_y 0xFF000000 s)

next_ahead :
    (x y : ℤ) (fuel : ℕ) (inner : Bool)
    → y +ℤ pos 1 ≤ℤ x +ℤ pos (suc fuel)
    → (if inner then y else y -ℤ pos 1) +ℤ pos 1 ≤ℤ x +ℤ pos 1 +ℤ pos fuel
next_ahead x y fuel true ahead = omega int_laws
next_ahead x y fuel false ahead = omega int_laws

-- The loop of a circle ends: with more rounds than `y` is ahead of `x`, further rounds change nothing.
pub circle_loop_ends :
    (xc yc thickness : ℤ) (fill_color border_color fuel extra : ℕ) (x y d : ℤ) (s : Screen)
    → y +ℤ pos 1 ≤ℤ x +ℤ pos fuel
    → circle_loop xc yc thickness fill_color border_color (fuel + extra) x y d s
      ≡ circle_loop xc yc thickness fill_color border_color fuel x y d s
unfolding circle_loop
circle_loop_ends xc yc thickness fill_color border_color zero zero x y d s ahead = refl
circle_loop_ends xc yc thickness fill_color border_color zero (suc extra) x y d s ahead =
    let over : ltb_ℤ y x ≡ true = ground (arith, +ℤ_parts y (pos 1), +ℤ_parts x (pos 0)) in
    let sum : 0 + suc extra ≡ suc extra = omega arith in rw (sum, over) refl
circle_loop_ends xc yc thickness fill_color border_color (suc fuel) extra x y d s ahead =
    let sum : suc fuel + extra ≡ suc (fuel + extra) = omega arith in
    elim (Bool-cases (ltb_ℤ y x)) [
      | inl over ↦ rw (sum, over) refl
      | inr more ↦
          let inner = ltb_ℤ d (pos 0) in
          let d' = if inner then d +ℤ pos 4 *ℤ x +ℤ pos 6 else d +ℤ pos 4 *ℤ (x -ℤ y) +ℤ pos 10 in
          let y' = if inner then y else y -ℤ pos 1 in
          let x' = x +ℤ pos 1 in
          rw (sum, more)
            (circle_loop_ends xc yc thickness fill_color border_color fuel extra x' y' d'
              (circle_rows xc yc thickness fill_color border_color x' y' s)
              (next_ahead x y fuel inner ahead))
    ]
