-- ===== src/Graphics/Rounds.antt =====
-- The windows stay layered through the rounds of `wm_task` of src/kernel/wm/wm.cpp.
use solstice_os.Base.{
  ℕ, ◌+◌, ◌≡◌, refl, subst, Bool, not, ◌&&◌, ◌||◌, ltb, ◌==◌, ◌^◌, ◌%◌, ◌-◌, none, some, List,
  Bool-cases, Option-cases, inl, inr, arith,
}
use solstice_os.Base.Int.{◌-ℤ◌, ℤ, ltb_ℤ}
use solstice_os.Base.Store.{update}
use solstice_os.Graphics.Screen.{Screen}
use solstice_os.Graphics.Windows.{
  titlebar_h, clamp, Window, Wm, add_dirty, add_dirty_window, press, drag, titlebar_hit_test,
  bring_to_front,
}
use solstice_os.Graphics.Layers.{IsLayered, front-IsLayered}
use solstice_os.Graphics.Desktop.{Desktop, redraw, mark_pointer, wm_round}

add_dirty-IsLayered : (x y w h : ℤ) (s : Wm) → IsLayered s → IsLayered (add_dirty x y w h s)
unfolding add_dirty
add_dirty-IsLayered x y w h s is = elim (Bool-cases s.have_dirty) [
  | inl dirty ↦ rw dirty (record { below = is.below; placed = is.placed; apart = is.apart })
  | inr clean ↦ rw clean (record { below = is.below; placed = is.placed; apart = is.apart })
]

window-IsLayered : (win : Window) (s : Wm) → IsLayered s → IsLayered (add_dirty_window win s)
unfolding add_dirty_window
window-IsLayered win s is = add_dirty-IsLayered _ _ _ _ s is

press-IsLayered :
    (left_down left_was_down : Bool) (mouse_x mouse_y : ℤ) (s : Wm)
    → IsLayered s
    → IsLayered (press left_down left_was_down mouse_x mouse_y s)
unfolding press
press-IsLayered left_down left_was_down mouse_x mouse_y s is =
    elim (Bool-cases (left_down && not left_was_down)) [
      | inr held ↦ elim (Bool-cases (not left_down)) [
        | inl up ↦ rw (held, up) (record { below = is.below; placed = is.placed; apart = is.apart })
        | inr down ↦ rw (held, down) is
      ]
      | inl pressed ↦ elim (Option-cases (titlebar_hit_test mouse_x mouse_y s)) [
        | inl miss ↦ rw (pressed, miss) is
        | inr (i, hit) ↦
            let win = s.windows i in
            let grabbed = record s {
              dragging = some i;
              drag_offset_x = mouse_x -ℤ win.x;
              drag_offset_y = mouse_y -ℤ win.y;
            } in
            let front = bring_to_front i grabbed in
            rw (pressed, hit)
              (window-IsLayered (front.windows i) front (
                front-IsLayered i grabbed
                  (record { below = is.below; placed = is.placed; apart = is.apart })))
      ]
    ]

add_dirty-windows : (x y w h : ℤ) (s : Wm) → (add_dirty x y w h s).windows ≡ s.windows
unfolding add_dirty
add_dirty-windows x y w h s = elim (Bool-cases s.have_dirty) [
  | inl dirty ↦ rw dirty refl
  | inr clean ↦ rw clean refl
]

-- A window that has the size, the layer and the buffer of the one before.
moved-IsLayered :
    (i : ℕ) (new_x new_y : ℤ) (s : Wm)
    → IsLayered s
    → IsLayered
        (record s { windows = update s.windows i (record (s.windows i) { x = new_x; y = new_y }) })
moved-IsLayered i new_x new_y s is = record {
  below = λ k u. ground (arith, is.below k);
  placed = λ k u. ground (arith, is.placed k);
  apart = λ j k uj uk ne. ground (arith, is.apart j k);
}

drag-IsLayered :
    (screen_w screen_h : ℕ) (mouse_x mouse_y : ℤ) (s : Wm)
    → IsLayered s
    → IsLayered (drag screen_w screen_h mouse_x mouse_y s)
unfolding drag add_dirty_window
drag-IsLayered screen_w screen_h mouse_x mouse_y s is =
    elim s.dragging
      as (λ m. IsLayered (drag screen_w screen_h mouse_x mouse_y (record s { dragging = m }))) [
        | none ↦ record { below = is.below; placed = is.placed; apart = is.apart }
        | some i ↦
            let s' = record s { dragging = some i } in
            let win = s.windows i in
            let new_x = clamp 0 screen_w win.width (mouse_x -ℤ s.drag_offset_x) in
            let new_y = clamp titlebar_h screen_h win.height (mouse_y -ℤ s.drag_offset_y) in
            let moved = record win { x = new_x; y = new_y } in
            let is' : IsLayered s' = record {
              below = is.below;
              placed = is.placed;
              apart = is.apart;
            } in
            let s₁ = add_dirty_window win s' in
            let same : s₁.windows ≡ s.windows = add_dirty-windows _ _ _ _ s' in
            let is₂ : IsLayered (record s₁ { windows = update s₁.windows i moved }) =
              subst
                (λ (w : ℕ → Window). IsLayered (record s₁ {
                  windows = update s₁.windows i (record (w i) { x = new_x; y = new_y });
                }))
                same (moved-IsLayered i new_x new_y s₁ (window-IsLayered win s' is')) in
            elim (Bool-cases (
              not (not (ltb_ℤ new_x win.x) && not (ltb_ℤ win.x new_x))
              || not (not (ltb_ℤ new_y win.y) && not (ltb_ℤ win.y new_y)))) [
                | inl goes ↦
                    rw goes (
                      window-IsLayered moved (record s₁ { windows = update s₁.windows i moved })
                        is₂)
                | inr stays ↦ rw stays is'
              ]
      ]

pointer-IsLayered :
    (mouse_x mouse_y : ℤ) (d : Desktop)
    → IsLayered d.wm
    → IsLayered (mark_pointer mouse_x mouse_y d).wm
unfolding mark_pointer
pointer-IsLayered mouse_x mouse_y d is =
    elim (Bool-cases (
      not (ltb_ℤ mouse_x d.last_mx)
      && not (ltb_ℤ d.last_mx mouse_x)
      && (not (ltb_ℤ mouse_y d.last_my) && not (ltb_ℤ d.last_my mouse_y)))) [
        | inl same ↦ rw same is
        | inr other ↦ rw other (add_dirty-IsLayered _ _ _ _ _ (add_dirty-IsLayered _ _ _ _ d.wm is))
      ]

redraw-IsLayered :
    (draw_string : (x y : ℤ) (text : List ℕ) (fg bg : ℕ) → Screen → Screen) (mouse_x mouse_y : ℤ)
    (d : Desktop)
    → IsLayered d.wm
    → IsLayered (redraw draw_string mouse_x mouse_y d).wm
unfolding redraw
redraw-IsLayered draw_string mouse_x mouse_y d is = elim (Bool-cases d.wm.have_dirty) [
  | inr clean ↦ rw clean (record { below = is.below; placed = is.placed; apart = is.apart })
  | inl dirty ↦ rw dirty (record { below = is.below; placed = is.placed; apart = is.apart })
]

-- A round of the window manager's loop keeps the layers and the buffers of the windows apart, whatever
-- the mouse and the timer do.
pub wm_round-IsLayered :
    (draw_string : (x y : ℤ) (text : List ℕ) (fg bg : ℕ) → Screen → Screen) (timer_ticks : ℕ)
    (mouse_x mouse_y : ℤ) (mouse_buttons : ℕ) (d : Desktop)
    → IsLayered d.wm
    → IsLayered (wm_round draw_string timer_ticks mouse_x mouse_y mouse_buttons d).wm
unfolding wm_round
wm_round-IsLayered draw_string timer_ticks mouse_x mouse_y mouse_buttons d is =
    elim (Bool-cases (ltb ((timer_ticks + 2 ^ 64 - d.last) % 2 ^ 64) 16)) [
      | inl early ↦ rw early is
      | inr due ↦ rw due (
          redraw-IsLayered draw_string mouse_x mouse_y _ (
            pointer-IsLayered mouse_x mouse_y _ (
              drag-IsLayered d.screen.width d.screen.height mouse_x mouse_y _ (
                press-IsLayered (mouse_buttons % 2 == 1) (d.last_buttons % 2 == 1) mouse_x mouse_y
                  d.wm is))))
    ]
