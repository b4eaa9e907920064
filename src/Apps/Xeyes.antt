-- ===== src/Apps/Xeyes.antt =====
-- The eyes of src/kernel/applications/xeyes.cpp: where `xeyes_task` draws the pupils.
pub mod Frame
use native.Mathlib.Nat.{mul-le-mul_left, mul-le-mul_right}
use solstice_os.Base.{
  ℕ, zero, suc, ◌+◌, ◌-◌, ◌*◌, ◌/◌, ◌^◌, ◌<◌, ◌≤◌, ◌≡◌, ap, ◌∙◌, not, if◌then◌else◌, ltb, leb,
  arith, Bool-cases, inl, inr,
}
use solstice_os.Base.Int.{
  size, square_sum, square_mono, +ℤ_cancel, +ℤ_comm, ℤ, pos, negsuc, pos_part, neg_part, ◌+ℤ◌, ◌-ℤ◌,
  ◌*ℤ◌,
}
use solstice_os.Util.Sqrt.{int_sqrt, int_sqrt_lem}
use solstice_os.Apps.Calculator.{quot}

abbrev pub eye_r : ℕ
eye_r = 22

abbrev pub pupil_r : ℕ
pupil_r = 7

abbrev pub max_move : ℕ
max_move = eye_r - pupil_r - 2

unfoldable pub distance : (dx dy : ℤ) → ℕ
distance dx dy = int_sqrt (dx *ℤ dx +ℤ dy *ℤ dy)

-- How far the pupil goes from the centre along one axis.
unfoldable pub move : (dist : ℕ) → ℤ → ℤ
move dist d =
    if not (ltb 0 dist)
    then pos 0
    else if ltb max_move dist
    then quot (d *ℤ pos max_move) (pos dist)
    else d

-- One pupil's place, for an eye at a point of the window and the pointer at another.
unfoldable pub pupil : (centre_x centre_y mouse_x mouse_y : ℤ) → ℤ × ℤ
pupil centre_x centre_y mouse_x mouse_y =
    let dx = mouse_x -ℤ centre_x in
    let dy = mouse_y -ℤ centre_y in
    let dist = distance dx dy in (centre_x +ℤ move dist dx, centre_y +ℤ move dist dy)

-- The two pupils of a window, for the pointer on the screen.
unfoldable pub pupils :
    (win_x win_y : ℤ) (width height : ℕ) (mouse_x mouse_y : ℤ) → (ℤ × ℤ) × (ℤ × ℤ)
pupils win_x win_y width height mouse_x mouse_y =
    let mouse_win_x = mouse_x -ℤ win_x in
    let mouse_win_y = mouse_y -ℤ win_y in
    let eye_cy = pos (height / 2) in
    (
      pupil (pos (width / 4)) eye_cy mouse_win_x mouse_win_y,
      pupil (pos (width * 3 / 4)) eye_cy mouse_win_x mouse_win_y,
    )

size-quot : (d : ℤ) (dist : ℕ) → size (quot (d *ℤ pos 13) (pos dist)) ≡ size d * 13 / dist
unfolding ◌*ℤ◌
size-quot (pos n) dist = ground arith
size-quot (negsuc n) dist = ground arith

-- A move of at least 1 that is cut to 13 parts of the distance.
cut_inside :
    (x y dist a b : ℕ)
    → 14 ≤ dist
    → a * dist ≤ x * 13
    → b * dist ≤ y * 13
    → x * x + y * y < (dist + 1) * (dist + 1)
    → a * a + b * b ≤ 225
cut_inside x y dist a b far along_x along_y near =
    let xs : a * dist * (a * dist) ≤ x * 13 * (x * 13) = square_mono (a * dist) (x * 13) along_x in
    let ys : b * dist * (b * dist) ≤ y * 13 * (y * 13) = square_mono (b * dist) (y * 13) along_y in
    let ds : (13 * dist + 13) * (13 * dist + 13) ≤ 15 * dist * (15 * dist) =
      square_mono (13 * dist + 13) (15 * dist) (omega arith) in
    elim (Bool-cases (leb (a * a + b * b) 225)) [
      | inl fits ↦ ground arith
      | inr more ↦
          let big : 226 ≤ a * a + b * b = ground arith in
          let pos_dist : 1 ≤ dist * dist = omega (arith, square_mono 14 dist far) in
          let wide : 226 * (dist * dist) ≤ (a * a + b * b) * (dist * dist) =
            mul-le-mul_right (dist * dist) big in
          absurd (omega (arith, xs, ys, ds, near))
    ]

abbrev pub length_squared : (a b : ℤ) → ℕ
length_squared a b = size a * size a + size b * size b

distance-bounds :
    (dx dy : ℤ)
    → length_squared dx dy < 2 ^ 31
    → (distance dx dy * distance dx dy ≤ length_squared dx dy)
      × (length_squared dx dy < (distance dx dy + 1) * (distance dx dy + 1))
unfolding distance
distance-bounds dx dy small =
    let (low, high, _) = int_sqrt_lem (length_squared dx dy) small in
    rw (square_sum dx dy) (low, high)

div-mul : (a d : ℕ) → a / d * d ≤ a
div-mul a zero = omega arith
div-mul a (suc d) = omega arith

move-inside :
    (dx dy : ℤ)
    → length_squared dx dy < 2 ^ 31
    → length_squared (move (distance dx dy) dx) (move (distance dx dy) dy) ≤ 225
unfolding move
move-inside dx dy small =
    let (low, high) = distance-bounds dx dy small in
    let d = distance dx dy in
    elim (Bool-cases (ltb 0 d)) [
      | inr null ↦ rw null (omega arith)
      | inl away ↦ elim (Bool-cases (ltb 13 d)) [
        | inl far ↦
            rw (away, far, size-quot dx d, size-quot dy d)
              (cut_inside (size dx) (size dy) d (size dx * 13 / d) (size dy * 13 / d) (ground arith)
                (div-mul (size dx * 13) d) (div-mul (size dy * 13) d) high)
        | inr close ↦
            let short : d + 1 ≤ 14 = ground arith in
            rw (away, close) (omega (arith, square_mono (d + 1) 14 short, high))
      ]
    ]

-- A pupil stays inside its eye: the place where it is drawn is at most the eye's radius less the
-- pupil's away from the eye's centre, when the squared distance of the pointer from that centre is
-- below 2 ^ 31, as the `int` of the code needs.
pub pupil-inside :
    (centre_x centre_y mouse_x mouse_y : ℤ)
    → length_squared (mouse_x -ℤ centre_x) (mouse_y -ℤ centre_y) < 2 ^ 31
    → let (x, y) = pupil centre_x centre_y mouse_x mouse_y in
      length_squared (x -ℤ centre_x) (y -ℤ centre_y) ≤ (eye_r - pupil_r) * (eye_r - pupil_r)
unfolding pupil
pupil-inside centre_x centre_y mouse_x mouse_y small =
    let dx = mouse_x -ℤ centre_x in
    let dy = mouse_y -ℤ centre_y in
    let d = distance dx dy in
    let at_x : centre_x +ℤ move d dx -ℤ centre_x ≡ move d dx =
      ap (λ (t : ℤ). t -ℤ centre_x) (+ℤ_comm centre_x (move d dx))
      ∙ +ℤ_cancel (move d dx) centre_x in
    let at_y : centre_y +ℤ move d dy -ℤ centre_y ≡ move d dy =
      ap (λ (t : ℤ). t -ℤ centre_y) (+ℤ_comm centre_y (move d dy))
      ∙ +ℤ_cancel (move d dy) centre_y in
    rw (at_x, at_y) (move-inside dx dy small)
