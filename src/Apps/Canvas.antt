-- ===== src/Apps/Canvas.antt =====
-- Drawing into a window's own pixels: `buf_fill_rect` of src/kernel/applications/calculator.cpp and
-- `buf_fill_circle` of src/kernel/applications/xeyes.cpp. The pixels are numbered from the start of the
-- window's buffer.
use solstice_os.Base.{
  ℕ, zero, suc, ◌+◌, ◌*◌, ◌<◌, ◌≤◌, ◌≡◌, refl, ap, sym, ◌∙◌, Bool, true, false, not, ◌&&◌,
  if◌then◌else◌, ltb, leb, ◌==◌, arith, Bool-cases, inl, inr,
}
use solstice_os.Base.Int.{
  ℤ, pos, pos_part, ◌+ℤ◌, ◌-ℤ◌, ◌*ℤ◌, ltb_ℤ, size, square_sum, square_mono, +ℤ_parts, -ℤ_parts,
}
use solstice_os.Base.Store.{update}
use solstice_os.Graphics.Screen.{Pixels, paint_row, paint_rows}
use solstice_os.Graphics.Pixels.{pixel, within, in_row, paint_rows_lem}

-- The ends of a stretch of `size` pixels, cut at the window's edges.
abbrev pub low_end : ℤ → ℤ
low_end v = if ltb_ℤ v (pos 0) then pos 0 else v

abbrev pub high_end : (extent : ℕ) → ℤ → ℤ
high_end extent v = if ltb_ℤ (pos extent) v then pos extent else v

unfoldable pub buf_fill_rect : (width height : ℕ) (x y w h : ℤ) (color : ℕ) → Pixels → Pixels
buf_fill_rect width height x y w h color =
    let x0 = low_end x in
    let y0 = low_end y in
    let x1 = high_end width (x +ℤ w) in
    let y1 = high_end height (y +ℤ h) in
    paint_rows (pos_part (y1 -ℤ y0)) width (pos_part x0) (pos_part (x1 -ℤ x0)) (pos_part y0)
      (λ i. color)

-- The test for a pixel `dx` and `dy` away from the centre.
unfoldable pub in_circle : (r : ℕ) (dx dy : ℤ) → Bool
in_circle r dx dy = not (ltb_ℤ (pos (r * r)) (dx *ℤ dx +ℤ dy *ℤ dy))

module _ (width : ℕ) (cx cy : ℤ) (r color : ℕ) where
  -- The loop over `left` columns of the row `y`.
  unfoldable pub circle_columns : (left x y : ℕ) → Pixels → Pixels
  circle_columns zero x y pixels = pixels
  circle_columns (suc left) x y pixels = circle_columns left (x + 1) y (
      if in_circle r (pos x -ℤ cx) (pos y -ℤ cy)
      then update pixels (y * width + x) color
      else pixels)

  -- The loop over `left` rows, for `w` columns from `x` on.
  unfoldable pub circle_lines : (left w x y : ℕ) → Pixels → Pixels
  circle_lines zero w x y pixels = pixels
  circle_lines (suc left) w x y pixels = circle_lines left w x (y + 1) (circle_columns w x y pixels)

unfoldable pub buf_fill_circle : (width height : ℕ) (cx cy : ℤ) (r color : ℕ) → Pixels → Pixels
buf_fill_circle width height cx cy r color =
    let x0 = low_end (cx -ℤ pos r) in
    let y0 = low_end (cy -ℤ pos r) in
    let x1 = high_end width (cx +ℤ pos r +ℤ pos 1) in
    let y1 = high_end height (cy +ℤ pos r +ℤ pos 1) in
    circle_lines width cx cy r color (pos_part (y1 -ℤ y0)) (pos_part (x1 -ℤ x0)) (pos_part x0)
      (pos_part y0)

module _ (x end : ℤ) (extent p : ℕ) where
  abbrev some : ℕ
  some = pos_part (high_end extent end -ℤ low_end x)

  -- The pixels of a stretch are those between its ends and in the window.
  cut_within :
      (leb (pos_part (low_end x)) p && ltb p (pos_part (low_end x) + some))
      ≡ (within x end p && ltb p extent)
  cut_within = let parts = -ℤ_parts (high_end extent end) (low_end x) in ground (arith, parts)

  cut_fits : 0 < some → pos_part (low_end x) + some ≤ extent
  cut_fits more = let parts = -ℤ_parts (high_end extent end) (low_end x) in ground (arith, parts)

paint_rows_none :
    (left stride x y : ℕ) (src dst : Pixels) (i : ℕ)
    → paint_rows left stride x 0 y src dst i ≡ dst i
unfolding paint_rows paint_row
paint_rows_none zero stride x y src dst i = refl
paint_rows_none (suc left) stride x y src dst i = paint_rows_none left stride x (y + 1) src dst i

-- `buf_fill_rect` gives the color to exactly the pixels that are in the rectangle and in the window, and
-- changes no other pixel of the memory from the window's buffer on.
pub buf_fill_rect-pixel :
    (width height : ℕ) (x y w h : ℤ) (color : ℕ) (pixels : Pixels) (px py : ℕ)
    → px < width
    → buf_fill_rect width height x y w h color pixels (pixel width px py) ≡ (
        if within x (x +ℤ w) px && (within y (y +ℤ h) py && ltb py height)
        then color
        else pixels (pixel width px py))
unfolding buf_fill_rect
buf_fill_rect-pixel width height x y w h color pixels px py inside =
    let n = some x (x +ℤ w) width px in
    let cx = cut_within x (x +ℤ w) width px in
    let cy = cut_within y (y +ℤ h) height py in
    let rows = some y (y +ℤ h) height py in
    elim (Bool-cases (ltb 0 n)) [
      | inl more ↦
          paint_rows_lem rows width (pos_part (low_end x)) n (pos_part (low_end y)) (λ i. color)
            pixels px py inside (cut_fits x (x +ℤ w) width px (ground arith))
          ∙ rw (cx, cy) (ground arith)
      | inr none ↦
          let e : n ≡ 0 = ground arith in
          let out : (within x (x +ℤ w) px && ltb px width) ≡ false = ground (arith, cx, e) in
          rw e (
            paint_rows_none rows width (pos_part (low_end x)) (pos_part (low_end y)) (λ i. color)
              pixels (pixel width px py)
            ∙ ground (arith, out))
    ]

module _ (width : ℕ) (cx cy : ℤ) (r color px py : ℕ) (inside : px < width) where
  abbrev hit : Bool
  hit = in_circle r (pos px -ℤ cx) (pos py -ℤ cy)

  circle_columns_lem :
      (left x y : ℕ) (pixels : Pixels)
      → x + left ≤ width
      → circle_columns width cx cy r color left x y pixels (pixel width px py) ≡ (
          if (py == y && leb x px && ltb px (x + left)) && hit
          then color
          else pixels (pixel width px py))
  unfolding circle_columns
  circle_columns_lem zero x y pixels fits = ground arith
  circle_columns_lem (suc left) x y pixels fits =
      let row = in_row width px py x 1 y inside (omega (arith, fits)) in
      let drawn = in_circle r (pos x -ℤ cx) (pos y -ℤ cy) in
      let rest =
        circle_columns_lem left (x + 1) y
          (if drawn then update pixels (y * width + x) color else pixels) (omega (arith, fits)) in
      rest ∙ elim (Bool-cases (py == y && px == x)) [
        | inl here ↦
            let e : py ≡ y = ground arith in
            let f : px ≡ x = ground arith in
            let same : drawn ≡ hit =
              ap (λ n. in_circle r (pos n -ℤ cx) (pos y -ℤ cy)) (sym f)
              ∙ ap (λ n. in_circle r (pos px -ℤ cx) (pos n -ℤ cy)) (sym e) in
            rw same (ground (arith, row))
        | inr other ↦ elim (Bool-cases drawn) [
          | inl on ↦ rw on (ground (arith, row))
          | inr off ↦ rw off (ground arith)
        ]
      ]

  circle_lines_lem :
      (left w x y : ℕ) (pixels : Pixels)
      → x + w ≤ width
      → circle_lines width cx cy r color left w x y pixels (pixel width px py) ≡ (
          if (leb y py && ltb py (y + left) && (leb x px && ltb px (x + w))) && hit
          then color
          else pixels (pixel width px py))
  unfolding circle_lines
  circle_lines_lem zero w x y pixels fits = ground arith
  circle_lines_lem (suc left) w x y pixels fits =
      let rest =
        circle_lines_lem left w x (y + 1) (circle_columns width cx cy r color w x y pixels) fits in
      let row = circle_columns_lem w x y pixels fits in rest ∙ rw row (ground arith)

  circle_lines_none :
      (left x y : ℕ) (pixels : Pixels) (i : ℕ)
      → circle_lines width cx cy r color left 0 x y pixels i ≡ pixels i
  unfolding circle_lines circle_columns
  circle_lines_none zero x y pixels i = refl
  circle_lines_none (suc left) x y pixels i = circle_lines_none left x (y + 1) pixels i

-- A pixel of the circle is in the square around it.
in_circle-near : (r : ℕ) (dx dy : ℤ) → in_circle r dx dy ≡ true → (size dx ≤ r) × (size dy ≤ r)
unfolding in_circle
in_circle-near r dx dy hit =
    let test : ltb_ℤ (pos (r * r)) (pos (size dx * size dx + size dy * size dy)) ≡ false =
      ap (ltb_ℤ (pos (r * r))) (sym (square_sum dx dy)) ∙ ground arith in
    let sum : size dx * size dx + size dy * size dy ≤ r * r = ground (arith, test) in
    let small : (n : ℕ) → n * n ≤ r * r → n ≤ r = λ n le. elim (Bool-cases (ltb r n)) [
      | inr up_to ↦ ground arith
      | inl past ↦ absurd (omega (arith, le, square_mono (r + 1) n (ground arith)))
    ] in
    (small (size dx) (omega (arith, sum)), small (size dy) (omega (arith, sum)))

near-within :
    (c : ℤ) (r p : ℕ) → size (pos p -ℤ c) ≤ r → within (c -ℤ pos r) (c +ℤ pos r +ℤ pos 1) p ≡ true
near-within c r p near =
    let a = -ℤ_parts (pos p) c in
    let b = -ℤ_parts c (pos r) in
    let d = +ℤ_parts c (pos r) in
    let e = +ℤ_parts (c +ℤ pos r) (pos 1) in ground (arith, a, b, d, e)

-- `buf_fill_circle` gives the color to exactly the pixels of the window whose squared distance from the
-- centre is at most that of the radius, and changes no other pixel of the memory from the window's buffer
-- on: the square that its loops are cut to leaves no pixel of the circle out.
pub buf_fill_circle-pixel :
    (width height : ℕ) (cx cy : ℤ) (r color : ℕ) (pixels : Pixels) (px py : ℕ)
    → px < width
    → buf_fill_circle width height cx cy r color pixels (pixel width px py) ≡ (
        if in_circle r (pos px -ℤ cx) (pos py -ℤ cy) && ltb py height
        then color
        else pixels (pixel width px py))
unfolding buf_fill_circle
buf_fill_circle-pixel width height cx cy r color pixels px py inside =
    let left_x = cx -ℤ pos r in
    let left_y = cy -ℤ pos r in
    let end_x = cx +ℤ pos r +ℤ pos 1 in
    let end_y = cy +ℤ pos r +ℤ pos 1 in
    let n = some left_x end_x width px in
    let rows = some left_y end_y height py in
    let cut_x = cut_within left_x end_x width px in
    let cut_y = cut_within left_y end_y height py in
    let drawn = in_circle r (pos px -ℤ cx) (pos py -ℤ cy) in
    let near : drawn ≡ true → (within left_x end_x px ≡ true) × (within left_y end_y py ≡ true) =
      λ on.
        let (a, b) = in_circle-near r (pos px -ℤ cx) (pos py -ℤ cy) on in
        (near-within cx r px a, near-within cy r py b) in
    let x0 = pos_part (low_end left_x) in
    let y0 = pos_part (low_end left_y) in
    elim (Bool-cases (ltb 0 n)) [
      | inl more ↦
          circle_lines_lem width cx cy r color px py inside rows n x0 y0 pixels
            (cut_fits left_x end_x width px (ground arith))
          ∙ rw (cut_x, cut_y)
              (elim (Bool-cases drawn) [
                | inl on ↦ let (a, b) = near on in rw (a, b, on) (ground arith)
                | inr off ↦ rw off (ground arith)
              ])
      | inr none ↦
          let e : n ≡ 0 = ground arith in
          rw e (
            circle_lines_none width cx cy r color px py inside rows x0 y0 pixels (pixel width px py)
            ∙ elim (Bool-cases drawn) [
              | inl on ↦
                  let (a, _) = near on in
                  let none_x : (within left_x end_x px && ltb px width) ≡ false =
                    ground (arith, cut_x, e) in
                  absurd (ground (arith, a, none_x))
              | inr off ↦ rw off (ground arith)
            ])
    ]
