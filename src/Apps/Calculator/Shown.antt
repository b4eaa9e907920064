-- ===== src/Apps/Calculator/Shown.antt =====
-- What the window of src/kernel/applications/calculator.cpp shows between the rounds of `calculator_task`.
use Prim.Native.Nat.{bit_and}
use solstice_os.Base.{
  ◌-◌, ◌/◌, ℕ, zero, suc, ◌+◌, ◌%◌, ◌^◌, ◌<◌, ◌≡◌, refl, not, ◌&&◌, ltb, ◌==◌, List, [], ◌∷◌, arith,
  Bool-cases, inl, inr,
}
use solstice_os.Base.Int.{+ℤ_parts, ℤ, pos, ◌+ℤ◌, ◌-ℤ◌}
use solstice_os.Graphics.Screen.{Pixels}
use solstice_os.Graphics.Pixels.{pixel}
use solstice_os.Graphics.Windows.{Window}
use solstice_os.Apps.Canvas.{buf_fill_rect, buf_fill_rect-pixel}
use solstice_os.Apps.Calculator.{pos_part, ltb_ℤ, Calc}
use solstice_os.Apps.Calculator.Grid.{on_cell}
use solstice_os.Apps.Calculator.Window.{
  CalcTask, buf_draw_string, draw_button, draw_buttons, draw_all, press_button, press_buttons,
  first_round, calc_round,
}

-- The same pixels in the window.
pub record Agree (win : Window) (p q : Pixels) : Type 0 where
  pub at :
      (px py : ℕ)
      → px < win.width
      → py < win.height
      → p (pixel win.width px py) ≡ q (pixel win.width px py)

-- A character is drawn from its place, its code and its colors: on windows that look the same it goes on as
-- far, and leaves windows that look the same.
abbrev pub IsUniform :
    (glyph : (width : ℕ) (x y : ℤ) (ch fg bg : ℕ) → Pixels → ℤ × Pixels) → Window → Type 0
IsUniform glyph win =
    (x y : ℤ) (ch fg bg : ℕ) (p q : Pixels)
    → Agree win p q
    → ((glyph win.width x y ch fg bg p).0 ≡ (glyph win.width x y ch fg bg q).0)
      × Agree win (glyph win.width x y ch fg bg p).1 (glyph win.width x y ch fg bg q).1

pub fill-Agree :
    (win : Window) (x y w h : ℤ) (color : ℕ) (p q : Pixels)
    → Agree win p q
    → Agree win
        (buf_fill_rect win.width win.height x y w h color p)
        (buf_fill_rect win.width win.height x y w h color q)
fill-Agree win x y w h color p q same = record {
  at = λ px py in_x in_y.
      rw
        (
          buf_fill_rect-pixel win.width win.height x y w h color p px py in_x,
          buf_fill_rect-pixel win.width win.height x y w h color q px py in_x,
          same.at px py in_x in_y,
        )
        refl;
}

-- The window filled as a whole.
background-Agree :
    (win : Window) (color : ℕ) (p q : Pixels)
    → Agree win
        (buf_fill_rect win.width win.height
          (pos 0)
          (pos 0)
          (pos win.width)
          (pos win.height)
          color
          p)
        (buf_fill_rect win.width win.height
          (pos 0)
          (pos 0)
          (pos win.width)
          (pos win.height)
          color
          q)
background-Agree win color p q = record { at = shown }
  where
    shown :
        (px py : ℕ)
        → px < win.width
        → py < win.height
        → buf_fill_rect win.width win.height
            (pos 0)
            (pos 0)
            (pos win.width)
            (pos win.height)
            color
            p
            (pixel win.width px py)
          ≡ buf_fill_rect win.width win.height
              (pos 0)
              (pos 0)
              (pos win.width)
              (pos win.height)
              color
              q
              (pixel win.width px py)
    shown px py in_x in_y =
        let fill = λ (m : Pixels).
          buf_fill_rect-pixel win.width win.height (pos 0) (pos 0) (pos win.width) (pos win.height)
            color m px py in_x in
        ground (
          arith,
          fill p,
          fill q,
          +ℤ_parts (pos 0) (pos win.width),
          +ℤ_parts (pos 0) (pos win.height),
        )

-- What a round reads, and the rounds for a list of that.
pub record Round : Type 0 where
  pub timer_ticks : ℕ
  pub mouse_x : ℤ
  pub mouse_y : ℤ
  pub mouse_buttons : ℕ

abbrev pub calc_rounds :
    (glyph : (width : ℕ) (x y : ℤ) (ch fg bg : ℕ) → Pixels → ℤ × Pixels)
    → Window
    → List Round
    → CalcTask
    → CalcTask
calc_rounds glyph win [] t = t
calc_rounds glyph win (r ∷ rounds) t =
    calc_rounds glyph win rounds
      (calc_round glyph win r.timer_ticks r.mouse_x r.mouse_y r.mouse_buttons t)

module _ (glyph : (width : ℕ) (x y : ℤ) (ch fg bg : ℕ) → Pixels → ℤ × Pixels) (win : Window)
    (uniform : IsUniform glyph win) where
  string-Agree :
      (x y : ℤ) (str : List ℕ) (fg bg : ℕ) (p q : Pixels)
      → Agree win p q
      → Agree win
          (buf_draw_string glyph win.width x y str fg bg p)
          (buf_draw_string glyph win.width x y str fg bg q)
  unfolding buf_draw_string
  string-Agree x y [] fg bg p q same = same
  string-Agree x y (ch ∷ str) fg bg p q same =
      let (advance, same') = uniform x y ch fg bg p q same in
      let p' = (glyph win.width x y ch fg bg p).1 in
      let q' = (glyph win.width x y ch fg bg q).1 in
      rw advance (string-Agree (x +ℤ (glyph win.width x y ch fg bg q).0) y str fg bg p' q' same')

  buttons-Agree :
      (left i : ℕ) (p q : Pixels)
      → Agree win p q
      → Agree win (draw_buttons glyph win left i p) (draw_buttons glyph win left i q)
  unfolding draw_buttons draw_button
  buttons-Agree zero i p q same = same
  buttons-Agree (suc left) i p q same =
      buttons-Agree left (i + 1) _ _
        (string-Agree _ _ _ _ _ _ _ (fill-Agree win _ _ _ _ _ p q same))

  -- `draw_all` draws every pixel of the window: none is left of what was there.
  draw_all-Agree :
      (c : Calc) (p q : Pixels) → Agree win (draw_all glyph win c p) (draw_all glyph win c q)
  unfolding draw_all
  draw_all-Agree c p q =
      buttons-Agree 16 0 _ _
        (string-Agree _ _ _ _ _ _ _ (fill-Agree win _ _ _ _ _ _ _ (background-Agree win _ p q)))

  -- The window shows the calculator as it is.
  pub record Shows (t : CalcTask) : Type 0 where
    pub drawn : (q : Pixels) → Agree win t.pixels (draw_all glyph win t.calc q)

  press_buttons-Shows :
      (left i lx ly : ℕ) (t : CalcTask) → Shows t → Shows (press_buttons glyph win left i lx ly t)
  unfolding press_buttons press_button
  press_buttons-Shows zero i lx ly t shows = shows
  press_buttons-Shows (suc left) i lx ly t shows =
      elim (Bool-cases (on_cell (i / 4) (i % 4) lx ly)) [
        | inl on ↦
            rw (on, press_buttons)
              (press_buttons-Shows left (i + 1) lx ly (press_button glyph win i t)
                (record { drawn = λ q. draw_all-Agree _ t.pixels q }))
        | inr off ↦ rw (off, press_buttons) (press_buttons-Shows left (i + 1) lx ly t shows)
      ]

  calc_round-Shows :
      (timer_ticks : ℕ) (mouse_x mouse_y : ℤ) (mouse_buttons : ℕ) (t : CalcTask)
      → Shows t
      → Shows (calc_round glyph win timer_ticks mouse_x mouse_y mouse_buttons t)
  unfolding calc_round
  calc_round-Shows timer_ticks mouse_x mouse_y mouse_buttons t shows =
      let t' : CalcTask = record t { last = timer_ticks; last_buttons = mouse_buttons } in
      let shows' : Shows t' = record { drawn = shows.drawn } in
      let lx = mouse_x -ℤ win.x in
      let ly = mouse_y -ℤ win.y in
      let pressed =
        not (bit_and mouse_buttons 1 == 0) && not (not (bit_and t.last_buttons 1 == 0)) in
      let inside =
        not (ltb_ℤ lx (pos 0))
        && ltb_ℤ lx (pos win.width)
        && not (ltb_ℤ ly (pos 0))
        && ltb_ℤ ly (pos win.height) in
      elim (Bool-cases (ltb ((timer_ticks + 2 ^ 64 - t.last) % 2 ^ 64) 16)) [
        | inl early ↦ rw (early, calc_round) shows
        | inr due ↦ elim (Bool-cases (not pressed)) [
          | inl up ↦ rw (due, up, calc_round) shows'
          | inr down ↦ elim (Bool-cases inside) [
            | inl on ↦
                rw (due, down, on, calc_round)
                  (press_buttons-Shows 16 0 (pos_part lx) (pos_part ly) t' shows')
            | inr off ↦ rw (due, down, off, calc_round) shows'
          ]
        ]
      ]

  all_rounds :
      (rounds : List Round) (t : CalcTask) → Shows t → Shows (calc_rounds glyph win rounds t)
  all_rounds [] t shows = shows
  all_rounds (r ∷ rounds) t shows =
      all_rounds rounds _
        (calc_round-Shows r.timer_ticks r.mouse_x r.mouse_y r.mouse_buttons t shows)

  -- The window after the first drawing and any number of rounds shows the calculator as it is then: its
  -- pixels are those that `draw_all` gives for it, whatever they are drawn over. The drawing of a character
  -- must not hang on what is outside the window.
  pub calc_rounds-Shows :
      (rounds : List Round) (t : CalcTask)
      → Shows (calc_rounds glyph win rounds (first_round glyph win t))
  unfolding first_round
  calc_rounds-Shows rounds t =
      all_rounds rounds (first_round glyph win t)
        (record { drawn = λ q. draw_all-Agree t.calc t.pixels q })
