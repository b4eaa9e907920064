-- ===== src/Apps/Calculator/Grid.antt =====
-- The buttons on the window: `grid_x`, `grid_y` and the click in `calculator_task`.
use solstice_os.Base.{
  sym, ◌≢◌, ◌%◌, ℕ, zero, suc, ◌+◌, ◌-◌, ◌*◌, ◌/◌, ◌<◌, ◌≤◌, ◌≡◌, refl, ap, ◌∙◌, Bool, true, false,
  not, ◌&&◌, if◌then◌else◌, ltb, leb, List, get_or, arith, Bool-cases, inl, inr,
}
use solstice_os.Base.Int.{ -ℤ_parts, +ℤ_parts, eq_of_parts, ◌+ℤ◌, ℤ, pos, pos_part, ◌-ℤ◌, ltb_ℤ}
use solstice_os.Text.Format.{codes}
use solstice_os.Apps.Calculator.{Calc, on_button}

abbrev pub calc_win_w : ℕ
calc_win_w = 176

abbrev pub display_h : ℕ
display_h = 44

abbrev pub grid_margin : ℕ
grid_margin = 8

abbrev pub grid_gap : ℕ
grid_gap = 6

abbrev pub btn_w : ℕ
btn_w = (calc_win_w - 2 * grid_margin - 3 * grid_gap) / 4

abbrev pub btn_h : ℕ
btn_h = 38

-- The four rows of `grid_labels`, one behind the other.
abbrev pub grid_labels : List ℕ
grid_labels = codes "123/456*789-C0=+"

abbrev pub grid_x : ℕ → ℕ
grid_x col = grid_margin + col * (btn_w + grid_gap)

abbrev pub grid_y : ℕ → ℕ
grid_y row = display_h + grid_margin + row * (btn_h + grid_gap)

-- The test for the button in a row and a column.
abbrev pub on_cell : (row col lx ly : ℕ) → Bool
on_cell row col lx ly =
    leb (grid_x col) lx
    && ltb lx (grid_x col + btn_w)
    && leb (grid_y row) ly
    && ltb ly (grid_y row + btn_h)

-- The two loops, over the `left` cells from number `i` on. A point inside the window is two numbers.
unfoldable pub press_cells : (left i : ℕ) → (lx ly : ℕ) → Calc → Calc
press_cells zero i lx ly c = c
press_cells (suc left) i lx ly c =
    press_cells left (i + 1) lx ly
      (if on_cell (i / 4) (i % 4) lx ly then on_button (get_or grid_labels i 0) c else c)

-- A click at a point of the screen, on the window at `win_x` and `win_y`.
unfoldable pub click : (width height : ℕ) → (win_x win_y mouse_x mouse_y : ℤ) → Calc → Calc
click width height win_x win_y mouse_x mouse_y c =
    let lx = mouse_x -ℤ win_x in
    let ly = mouse_y -ℤ win_y in
    if not (ltb_ℤ lx (pos 0))
      && ltb_ℤ lx (pos width)
      && not (ltb_ℤ ly (pos 0))
      && ltb_ℤ ly (pos height)
    then press_cells 16 0 (pos_part lx) (pos_part ly) c
    else c

press_none :
    (left i lx ly : ℕ) (c : Calc)
    → ((j : ℕ) → i ≤ j → j < i + left → on_cell (j / 4) (j % 4) lx ly ≡ false)
    → press_cells left i lx ly c ≡ c
unfolding press_cells
press_none zero i lx ly c off = refl
press_none (suc left) i lx ly c off =
    rw (off i (omega arith) (omega arith))
      (press_none left (i + 1) lx ly c (λ j p q. off j (omega arith) (omega arith)))

-- A point is on one button at most.
cell_of :
    (row col lx ly : ℕ)
    → on_cell row col lx ly ≡ true
    → (row ≡ (ly - 52) / 44) × (col ≡ (lx - 8) / 41)
cell_of row col lx ly on = (ground arith, ground arith)

same_cell :
    (j k lx ly : ℕ)
    → on_cell (j / 4) (j % 4) lx ly ≡ true
    → on_cell (k / 4) (k % 4) lx ly ≡ true
    → j ≡ k
same_cell j k lx ly on on' =
    let a = cell_of (j / 4) (j % 4) lx ly on in
    let b = cell_of (k / 4) (k % 4) lx ly on' in
    let row : j / 4 ≡ k / 4 = a.0 ∙ sym b.0 in
    let col : j % 4 ≡ k % 4 = a.1 ∙ sym b.1 in omega (arith, row, col)

press_one :
    (left i lx ly : ℕ) (c : Calc) (k : ℕ)
    → i ≤ k
    → k < i + left
    → on_cell (k / 4) (k % 4) lx ly ≡ true
    → press_cells left i lx ly c ≡ on_button (get_or grid_labels k 0) c
unfolding press_cells
press_one zero i lx ly c k le lt on = absurd (omega arith)
press_one (suc left) i lx ly c k le lt on = elim (Bool-cases (on_cell (i / 4) (i % 4) lx ly)) [
  | inl here ↦
      let q = same_cell i k lx ly here on in
      let quiet : (j : ℕ) → i + 1 ≤ j → j < i + 1 + left → on_cell (j / 4) (j % 4) lx ly ≡ false =
        λ j le' lt'. elim (Bool-cases (on_cell (j / 4) (j % 4) lx ly)) [
          | inl twice ↦ let e = same_cell j i lx ly twice here in absurd (omega (arith, e))
          | inr off ↦ off
        ] in
      rw here (
        press_none left (i + 1) lx ly (on_button (get_or grid_labels i 0) c) quiet
        ∙ ap (λ n. on_button (get_or grid_labels n 0) c) q)
  | inr other ↦
      let le' : i + 1 ≤ k = omega (arith, not_here i k lx ly other on) in
      rw other (press_one left (i + 1) lx ly c k le' (omega arith) on)
]
  where
    not_here :
        (i k lx ly : ℕ)
        → on_cell (i / 4) (i % 4) lx ly ≡ false
        → on_cell (k / 4) (k % 4) lx ly ≡ true
        → i ≢ k
    not_here i k lx ly off on e = cc (ap (λ n. on_cell (n / 4) (n % 4) lx ly) e, off, on)

inside_window : (win : ℤ) (l : ℕ) → (win +ℤ pos l) -ℤ win ≡ pos l
inside_window win l = omega (
  arith,
  eq_of_parts (win +ℤ pos l -ℤ win) (pos l),
  +ℤ_parts win (pos l),
  -ℤ_parts (win +ℤ pos l) win,
)

-- A click on a button of the window presses the button under the point, once, and no other.
pub click-press :
    (width height : ℕ) (win_x win_y : ℤ) (lx ly k : ℕ) (c : Calc)
    → lx < width
    → ly < height
    → k < 16
    → on_cell (k / 4) (k % 4) lx ly ≡ true
    → click width height win_x win_y (win_x +ℤ pos lx) (win_y +ℤ pos ly) c
      ≡ on_button (get_or grid_labels k 0) c
unfolding click
click-press width height win_x win_y lx ly k c in_x in_y small on =
    let inside : (not (ltb_ℤ (pos lx) (pos 0))
          && ltb_ℤ (pos lx) (pos width)
          && not (ltb_ℤ (pos ly) (pos 0))
          && ltb_ℤ (pos ly) (pos height))
        ≡ true =
      ground arith in
    rw (inside_window win_x lx, inside_window win_y ly, inside)
      (press_one 16 0 lx ly c k (omega arith) (omega arith) on)
