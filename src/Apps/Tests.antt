-- ===== src/Apps/Tests.antt =====
-- Instances of the applications' theorems, and runs.
use solstice_os.Graphics.Screen.{Pixels}
use solstice_os.Graphics.Windows.{Window}
use solstice_os.Apps.Canvas.{buf_fill_rect}
use solstice_os.Apps.Calculator.Window.{CalcTask, first_round}
use solstice_os.Apps.Calculator.Shown.{Round, calc_rounds, Shows, fill-Agree, calc_rounds-Shows}
use solstice_os.Apps.Xeyes.{pupil, length_squared, pupil-inside}
use solstice_os.Base.{true, none, false, ℕ, ◌≡◌, ◌≤◌, refl, List, [], ◌∷◌, ◌++◌, arith}
use solstice_os.Base.Int.{ℤ, ◌*ℤ◌, ◌-ℤ◌, pos, negsuc}
use solstice_os.Text.Format.{codes}
use solstice_os.Apps.Calculator.{expr_append, initial, on_button, itoa_dec}
use solstice_os.Apps.Calculator.Chain.{
  times, minus, StaysInt32, Term, press_all, typed, value_from, number_from, press_all-value,
}

-- `12-5*3=`.
abbrev terms : List Term
terms =
    record { op = minus; first = b'5'; digits = [] }
    ∷ record { op = times; first = b'3'; digits = [] }
    ∷ []

terms-StaysInt32 : StaysInt32 (pos 12) terms
unfolding ◌-ℤ◌ ◌*ℤ◌
terms-StaysInt32 = omega arith

press_all-value_example :
    ((press_all (b'C' ∷ b'1' ∷ (b'2' ∷ []) ++ typed terms) initial).display_value
      ≡ value_from (pos (number_from 0 (b'1' ∷ b'2' ∷ []))) terms)
    × ((press_all (b'C' ∷ b'1' ∷ (b'2' ∷ []) ++ typed terms) initial).expr
        ≡ itoa_dec (value_from (pos (number_from 0 (b'1' ∷ b'2' ∷ []))) terms))
press_all-value_example =
    press_all-value initial b'1' (b'2' ∷ []) terms (omega arith) (omega arith)
      (omega arith, omega arith, (omega arith, omega arith, tt)) terms-StaysInt32

-- 12 - 5 = 7, times 3.
chain_run : value_from (pos 12) terms ≡ pos 21
unfolding ◌-ℤ◌ ◌*ℤ◌
chain_run = refl

-- After `C` the zero stays in front of what is typed.
leading_zero : (press_all (codes "C5") initial).expr ≡ codes "05"
unfolding on_button expr_append
leading_zero = refl

pupil-inside_example :
    let (x, y) = pupil (pos 40) (pos 50) (pos 700) (negsuc 19) in
    length_squared (x -ℤ pos 40) (y -ℤ pos 50) ≤ 225
unfolding ◌-ℤ◌
pupil-inside_example = pupil-inside (pos 40) (pos 50) (pos 700) (negsuc 19) (omega arith)

abbrev eyes : Window
eyes = record {
  x = pos 300;
  y = pos 200;
  width = 160;
  height = 100;
  title = [];
  buffer = 0;
  layer = 0;
  is_dirty = false;
  in_use = true;
}

-- A character as a block of 8 by 16 pixels.
abbrev block : (width : ℕ) (x y : ℤ) (ch fg bg : ℕ) → Pixels → ℤ × Pixels
block width x y ch fg bg pixels = (pos 8, buf_fill_rect width 100 x y (pos 8) (pos 16) fg pixels)

abbrev begun : CalcTask
begun = record {
  last = 0;
  last_buttons = 0;
  calc = initial;
  pixels = λ i. 0;
  wm = record {
    windows = λ i. eyes;
    window_count = 1;
    heap_next = 0x1400000;
    memory = λ i. 0;
    have_dirty = false;
    dx0 = pos 0;
    dy0 = pos 0;
    dx1 = pos 0;
    dy1 = pos 0;
    dragging = none;
    drag_offset_x = pos 0;
    drag_offset_y = pos 0;
  };
}

abbrev one_click : List Round
one_click =
    record { timer_ticks = 20; mouse_x = pos 310; mouse_y = pos 260; mouse_buttons = 1 } ∷ []

calc_rounds-Shows_example :
    Shows block eyes
      (λ x y ch fg bg p q same. (refl, fill-Agree eyes x y (pos 8) (pos 16) fg p q same))
      (calc_rounds block eyes one_click (first_round block eyes begun))
calc_rounds-Shows_example =
    calc_rounds-Shows block eyes
      (λ x y ch fg bg p q same. (refl, fill-Agree eyes x y (pos 8) (pos 16) fg p q same)) one_click
      begun
