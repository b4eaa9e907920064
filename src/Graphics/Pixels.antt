-- ===== src/Graphics/Pixels.antt =====
-- Which pixels the drawing of src/kernel/wm/gfx.cpp changes.
use native.Mathlib.Nat.{mul-le-mul_right}
use solstice_os.Base.{
  ℕ, zero, suc, ◌+◌, ◌*◌, ◌<◌, ◌≤◌, ◌≡◌, inl, inr, refl, ap, ◌∙◌, Bool, true, false, not, ◌&&◌,
  if◌then◌else◌, ltb, leb, ◌==◌, arith, Bool-cases,
}
use solstice_os.Base.Int.{ℤ, pos, pos_part, neg_part, ◌+ℤ◌, ◌-ℤ◌, ltb_ℤ, +ℤ_parts, -ℤ_parts}
use solstice_os.Base.Store.{update}
use solstice_os.Graphics.Screen.{
  Pixels, Screen, raise, lower, paint_row, paint_rows, fill_rect, present_rect,
}

-- The pixel in column `px` of row `py`.
abbrev pub pixel : (stride px py : ℕ) → ℕ
pixel stride px py = py * stride + px

pub paint_row_lem :
    (left at : ℕ) (src dst : Pixels) (i : ℕ)
    → paint_row left at src dst i ≡ (if leb at i && ltb i (at + left) then src i else dst i)
unfolding paint_row
paint_row_lem zero at src dst i = ground arith
paint_row_lem (suc left) at src dst i =
    let rest = paint_row_lem left (at + 1) src (update dst at (src at)) i in
    rest ∙ elim (Bool-cases (i == at)) [
      | inl here ↦ let q : i ≡ at = ground arith in ground (arith, ap src q)
      | inr other ↦ ground arith
    ]

-- The pixels of a row are those of a stretch of the buffer.
pub in_row :
    (stride px py x w y : ℕ)
    → px < stride
    → x + w ≤ stride
    → (leb (y * stride + x) (pixel stride px py) && ltb (pixel stride px py) (y * stride + x + w))
      ≡ (py == y && leb x px && ltb px (x + w))
in_row stride px py x w y inside fits = elim (Bool-cases (py == y)) [
  | inl same ↦
      let q : py ≡ y = ground arith in
      let q' : py * stride ≡ y * stride = ap (λ (t : ℕ). t * stride) q in ground arith
  | inr other ↦ elim (Bool-cases (ltb py y)) [
    | inl above ↦
        let far : py * stride + stride ≤ y * stride =
          omega (arith, mul-le-mul_right {m = py + 1} {n = y} stride (ground arith)) in
        ground arith
    | inr below ↦
        let far : y * stride + stride ≤ py * stride =
          omega (arith, mul-le-mul_right {m = y + 1} {n = py} stride (ground arith)) in
        ground arith
  ]
]

-- A painted rectangle that fits the rows.
pub paint_rows_lem :
    (left stride x w y : ℕ) (src dst : Pixels) (px py : ℕ)
    → px < stride
    → x + w ≤ stride
    → paint_rows left stride x w y src dst (pixel stride px py) ≡ (
        if leb y py && ltb py (y + left) && (leb x px && ltb px (x + w))
        then src (pixel stride px py)
        else dst (pixel stride px py))
unfolding paint_rows
paint_rows_lem zero stride x w y src dst px py inside fits = ground arith
paint_rows_lem (suc left) stride x w y src dst px py inside fits =
    let rest =
      paint_rows_lem left stride x w (y + 1) src (paint_row w (y * stride + x) src dst) px py inside
        fits in
    let row = paint_row_lem w (y * stride + x) src dst (pixel stride px py) in
    rest ∙ rw (row, in_row stride px py x w y inside fits) (ground arith)

-- A column or row from `lo` on and before `hi`.
abbrev pub within : ℤ → ℤ → ℕ → Bool
within lo hi p = not (ltb_ℤ (pos p) lo) && ltb_ℤ (pos p) hi

-- Clipping one coordinate, where something is left and where nothing is.
module _ (x end clip0 clip1 : ℤ) (size p : ℕ) where
  abbrev from : ℤ
  from = raise clip0 (raise (pos 0) x)

  abbrev to : ℤ
  to = lower clip1 (lower (pos size) end)

  from_sign : neg_part from ≡ 0
  from_sign = ground arith

  from_test : leb (pos_part from) p ≡ (not (ltb_ℤ (pos p) x) && not (ltb_ℤ (pos p) clip0))
  from_test = ground arith

  to_test :
      neg_part to ≡ 0
      → ltb p (pos_part to) ≡ (ltb_ℤ (pos p) end && ltb_ℤ (pos p) clip1 && ltb p size)
  to_test sign = ground arith

  to_size : pos_part to ≤ size
  to_size = ground arith

  clip_some :
      ltb_ℤ (pos 0) (to -ℤ from) ≡ true
      → ((leb (pos_part from) p && ltb p (pos_part from + pos_part (to -ℤ from)))
          ≡ (within x end p && within clip0 clip1 p && ltb p size))
        × (pos_part from + pos_part (to -ℤ from) ≤ size)
  clip_some some =
      let parts = -ℤ_parts to from in
      let ends : neg_part to ≡ 0 = ground (arith, parts, from_sign) in
      let sum : pos_part from + pos_part (to -ℤ from) ≡ pos_part to =
        ground (arith, parts, from_sign, ends) in
      (rw (sum, from_test, to_test ends) (ground arith), rw sum to_size)

  clip_nothing :
      ltb_ℤ (pos 0) (to -ℤ from) ≡ false
      → (within x end p && within clip0 clip1 p && ltb p size) ≡ false
  clip_nothing nothing = let parts = -ℤ_parts to from in ground (arith, parts)

-- `gfx_fill_rect` gives the color to exactly the pixels that are in the rectangle, in the clip
-- rectangle and on the screen, when a row of the buffer has room for the screen's width. Every other
-- pixel of the buffer is as before.
pub fill_rect-pixel :
    (x y w h : ℤ) (color : ℕ) (s : Screen) (px py : ℕ)
    → px < s.stride
    → s.width ≤ s.stride
    → (fill_rect x y w h color s).backbuffer (pixel s.stride px py) ≡ (
        if (within x (x +ℤ w) px && within s.clip_x0 s.clip_x1 px && ltb px s.width)
          && (within y (y +ℤ h) py && within s.clip_y0 s.clip_y1 py && ltb py s.height)
        then color
        else s.backbuffer (pixel s.stride px py))
unfolding fill_rect
fill_rect-pixel x y w h color s px py inside fits =
    let x0 = raise s.clip_x0 (raise (pos 0) x) in
    let y0 = raise s.clip_y0 (raise (pos 0) y) in
    let x1 = lower s.clip_x1 (lower (pos s.width) (x +ℤ w)) in
    let y1 = lower s.clip_y1 (lower (pos s.height) (y +ℤ h)) in
    elim (Bool-cases (ltb_ℤ (pos 0) (x1 -ℤ x0))) [
      | inr none_x ↦ rw (none_x, clip_nothing x (x +ℤ w) s.clip_x0 s.clip_x1 s.width px none_x) refl
      | inl some_x ↦ elim (Bool-cases (ltb_ℤ (pos 0) (y1 -ℤ y0))) [
        | inr none_y ↦
            let no = clip_nothing y (y +ℤ h) s.clip_y0 s.clip_y1 s.height py none_y in
            rw (some_x, none_y, no) (ground arith)
        | inl some_y ↦
            let cx = clip_some x (x +ℤ w) s.clip_x0 s.clip_x1 s.width px some_x in
            let cy = clip_some y (y +ℤ h) s.clip_y0 s.clip_y1 s.height py some_y in
            let drawn =
              paint_rows_lem (pos_part (y1 -ℤ y0)) s.stride (pos_part x0) (pos_part (x1 -ℤ x0))
                (pos_part y0) (λ i. color) s.backbuffer px py inside (omega (arith, cx.1)) in
            rw (some_x, some_y) (drawn ∙ rw (cx.0, cy.0) (ground arith))
      ]
    ]

module _ (x w : ℤ) (size p : ℕ) where
  abbrev shown_from : ℤ
  shown_from = if ltb_ℤ x (pos 0) then pos 0 else x

  abbrev shown_some : ℤ
  shown_some = if ltb_ℤ x (pos 0) then w +ℤ x else w

  abbrev shown : ℤ
  shown = if ltb_ℤ (pos size) (shown_from +ℤ shown_some) then pos size -ℤ shown_from else shown_some

  shown_in :
      ltb_ℤ (pos 0) shown ≡ true
      → ((leb (pos_part shown_from) p && ltb p (pos_part shown_from + pos_part shown))
          ≡ (within x (x +ℤ w) p && ltb p size))
        × (pos_part shown_from + pos_part shown ≤ size)
  shown_in some =
      let a = +ℤ_parts w x in
      let b = +ℤ_parts x w in
      let c = +ℤ_parts shown_from shown_some in
      let d = -ℤ_parts (pos size) shown_from in
      (ground (arith, a, b, c, d), ground (arith, a, b, c, d))

  shown_nothing : ltb_ℤ (pos 0) shown ≡ false → (within x (x +ℤ w) p && ltb p size) ≡ false
  shown_nothing nothing =
      let a = +ℤ_parts w x in
      let b = +ℤ_parts x w in
      let c = +ℤ_parts shown_from shown_some in
      let d = -ℤ_parts (pos size) shown_from in ground (arith, a, b, c, d)

-- `gfx_present_rect` brings the rectangle's part of the screen to the framebuffer, when a row of the
-- buffers has room for the screen's width: a pixel there is
-- the backbuffer's, and every other pixel of the framebuffer is as before.
pub present_rect-pixel :
    (x y w h : ℤ) (s : Screen) (px py : ℕ)
    → px < s.stride
    → s.width ≤ s.stride
    → (present_rect x y w h s).framebuffer (pixel s.stride px py) ≡ (
        if (within x (x +ℤ w) px && ltb px s.width) && (within y (y +ℤ h) py && ltb py s.height)
        then s.backbuffer (pixel s.stride px py)
        else s.framebuffer (pixel s.stride px py))
unfolding present_rect
present_rect-pixel x y w h s px py inside fits =
    elim (Bool-cases (ltb_ℤ (pos 0) (shown x w s.width px))) [
      | inr none_x ↦ rw (none_x, shown_nothing x w s.width px none_x) refl
      | inl some_x ↦ elim (Bool-cases (ltb_ℤ (pos 0) (shown y h s.height py))) [
        | inr none_y ↦ rw (some_x, none_y, shown_nothing y h s.height py none_y) (ground arith)
        | inl some_y ↦
            let cx = shown_in x w s.width px some_x in
            let cy = shown_in y h s.height py some_y in
            let drawn =
              paint_rows_lem (pos_part (shown y h s.height py)) s.stride
                (pos_part (shown_from x w s.width px)) (pos_part (shown x w s.width px))
                (pos_part (shown_from y h s.height py)) s.backbuffer s.framebuffer px py inside
                (omega (arith, cx.1)) in
            rw (some_x, some_y) (drawn ∙ rw (cx.0, cy.0) (ground arith))
      ]
    ]
