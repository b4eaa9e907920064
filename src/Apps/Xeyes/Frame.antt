-- ===== src/Apps/Xeyes/Frame.antt =====
-- What `xeyes_task` of src/kernel/applications/xeyes.cpp draws in a round of its loop.
use solstice_os.Base.{ℕ, ◌*◌, ◌/◌, ◌%◌, ◌^◌, Bool}
use solstice_os.Base.Int.{ℤ, pos, ◌-ℤ◌}
use solstice_os.Graphics.Screen.{Pixels, paint_row}
use solstice_os.Graphics.Windows.{Window, Wm, add_dirty}
use solstice_os.Apps.Canvas.{in_circle, buf_fill_circle}
use solstice_os.Apps.Xeyes.{eye_r, pupil_r, pupils}

abbrev pub color_bg : ℕ
color_bg = 0xFFFFCCCC

abbrev pub color_white : ℕ
color_white = 0xFFFFFFFF

abbrev pub color_black : ℕ
color_black = 0

-- The pixels of the window after a round, for the pointer on the screen.
unfoldable pub xeyes_frame : (win : Window) (mouse_x mouse_y : ℤ) → Pixels → Pixels
xeyes_frame win mouse_x mouse_y pixels =
    let width = win.width in
    let height = win.height in
    let eye_cy = pos (height / 2) in
    let p₀ = paint_row (width * height % 2 ^ 32) 0 (λ i. color_bg) pixels in
    let p₁ = buf_fill_circle width height (pos (width / 4)) eye_cy eye_r color_white p₀ in
    let p₂ = buf_fill_circle width height (pos (width * 3 / 4)) eye_cy eye_r color_white p₁ in
    let (left, right) = pupils win.x win.y width height mouse_x mouse_y in
    let p₃ = buf_fill_circle width height left.0 left.1 pupil_r color_black p₂ in
    buf_fill_circle width height right.0 right.1 pupil_r color_black p₃

-- The round, with the window's place marked to be drawn again.
unfoldable pub xeyes_round : (win : Window) (mouse_x mouse_y : ℤ) → Pixels → Wm → Pixels × Wm
xeyes_round win mouse_x mouse_y pixels wm = (
  xeyes_frame win mouse_x mouse_y pixels,
  add_dirty win.x win.y (pos win.width) (pos win.height) wm,
)

-- A pixel is in the circle around a point.
abbrev pub in_disc : (centre : ℤ × ℤ) (r px py : ℕ) → Bool
in_disc centre r px py = in_circle r (pos px -ℤ centre.0) (pos py -ℤ centre.1)
