-- ===== src/Graphics/Windows.antt =====
-- The window manager's state and operations, of src/kernel/wm/wm.cpp. Widths and heights are numbers:
-- every window is opened with constants.
use solstice_os.Base.{
  ℕ, zero, suc, ◌+◌, ◌-◌, ◌*◌, Bool, true, not, ◌||◌, ◌&&◌, if◌then◌else◌, ltb, Option, none, some,
  List, take,
}
use solstice_os.Base.Int.{ℤ, pos, ◌+ℤ◌, ◌-ℤ◌, ltb_ℤ}
use solstice_os.Base.Store.{update}

abbrev pub titlebar_h : ℕ
titlebar_h = 24

abbrev pub max_windows : ℕ
max_windows = 8

pub record Window : Type 0 where
  pub x : ℤ
  pub y : ℤ
  pub width : ℕ
  pub height : ℕ
  pub title : List ℕ
  pub buffer : ℕ
  pub layer : ℕ
  pub is_dirty : Bool
  pub in_use : Bool

-- The globals of wm.cpp, with the memory that holds the windows' pixels, a color at each address.
-- `dragging` is the index of `dragging_window`.
pub record Wm : Type 0 where
  pub windows : ℕ → Window
  pub window_count : ℕ
  pub heap_next : ℕ
  pub memory : ℕ → ℕ
  pub have_dirty : Bool
  pub dx0 : ℤ
  pub dy0 : ℤ
  pub dx1 : ℤ
  pub dy1 : ℤ
  pub dragging : Option ℕ
  pub drag_offset_x : ℤ
  pub drag_offset_y : ℤ

unfoldable pub add_dirty : (x y w h : ℤ) → Wm → Wm
add_dirty x y w h s =
    let x1 = x +ℤ w in
    let y1 = y +ℤ h in
    if not s.have_dirty
    then record s { dx0 = x; dy0 = y; dx1 = x1; dy1 = y1; have_dirty = true }
    else record s {
      dx0 = if ltb_ℤ x s.dx0 then x else s.dx0;
      dy0 = if ltb_ℤ y s.dy0 then y else s.dy0;
      dx1 = if ltb_ℤ s.dx1 x1 then x1 else s.dx1;
      dy1 = if ltb_ℤ s.dy1 y1 then y1 else s.dy1;
    }

unfoldable pub add_dirty_window : Window → Wm → Wm
add_dirty_window win =
    add_dirty (win.x -ℤ pos 2) (win.y -ℤ pos titlebar_h -ℤ pos 2) (pos (win.width + 4))
      (pos (win.height + titlebar_h + 4))

-- The loop over the slots for one that is not in use, at `i` with `left` to go.
unfoldable pub unused : (left i : ℕ) → (ℕ → Window) → Option ℕ
unused zero i windows = none
unused (suc left) i windows =
    let rest = unused left (i + 1) windows in if not (windows i).in_use then some i else rest

-- The loop that clears a window's pixels.
unfoldable pub fill_pixels : (left at color : ℕ) → (ℕ → ℕ) → ℕ → ℕ
fill_pixels zero at color memory = memory
fill_pixels (suc left) at color memory = fill_pixels left (at + 4) color (update memory at color)

-- The slot, and none for the null pointer. At most 31 characters of the title are kept.
unfoldable pub create_window : (title : List ℕ) (x y : ℤ) (w h : ℕ) → Wm → Option ℕ × Wm
create_window title x y w h s = elim (unused max_windows 0 s.windows) [
  | none ↦ (none, s)
  | some i ↦
      let win : Window = record {
        x = x;
        y = y;
        width = w;
        height = h;
        title = take 31 title;
        buffer = s.heap_next;
        layer = s.window_count;
        is_dirty = true;
        in_use = true;
      } in
      (
        some i,
        record s {
          windows = update s.windows i win;
          window_count = s.window_count + 1;
          heap_next = s.heap_next + w * h * 4;
          memory = fill_pixels (w * h) s.heap_next 0xff16091f s.memory;
        },
      )
]

-- A point on a title bar, but not on its close button.
unfoldable pub on_titlebar : Window → (x y : ℤ) → Bool
on_titlebar win x y =
    let close_x0 = win.x +ℤ pos win.width -ℤ pos titlebar_h +ℤ pos 4 in
    let top = win.y -ℤ pos titlebar_h in
    let outside_x = ltb_ℤ x win.x || not (ltb_ℤ x (win.x +ℤ pos win.width)) in
    let outside_y = ltb_ℤ y top || not (ltb_ℤ y win.y) in
    let on_close =
      not (ltb_ℤ x close_x0)
      && ltb_ℤ x (close_x0 +ℤ pos (titlebar_h - 8))
      && not (ltb_ℤ y (top +ℤ pos 4))
      && ltb_ℤ y (top +ℤ pos 4 +ℤ pos (titlebar_h - 8)) in
    not outside_x && not outside_y && not on_close

-- `!best || win->layer > best->layer`.
abbrev pub beats : (ℕ → Window) → ℕ → Option ℕ → Bool
beats windows i none = true
beats windows i (some j) = ltb (windows j).layer (windows i).layer

-- The loop of `wm_titlebar_hit_test`.
unfoldable pub hit_from : (left i : ℕ) → (ℕ → Window) → (x y : ℤ) → (best : Option ℕ) → Option ℕ
hit_from zero i windows x y best = best
hit_from (suc left) i windows x y best =
    let hit = (windows i).in_use && on_titlebar (windows i) x y && beats windows i best in
    hit_from left (i + 1) windows x y (if hit then some i else best)

unfoldable pub titlebar_hit_test : (x y : ℤ) → Wm → Option ℕ
titlebar_hit_test x y s = hit_from max_windows 0 s.windows x y none

unfoldable pub bring_to_front : ℕ → Wm → Wm
bring_to_front i s = record s {
  windows = update s.windows i (record (s.windows i) { layer = s.window_count });
  window_count = s.window_count + 1;
}

-- What `wm_task` does when the left button goes down, and when it is up.
unfoldable pub press : (left_down left_was_down : Bool) (mouse_x mouse_y : ℤ) → Wm → Wm
press left_down left_was_down mouse_x mouse_y s =
    if left_down && not left_was_down
    then elim (titlebar_hit_test mouse_x mouse_y s) [
      | none ↦ s
      | some i ↦
          let win = s.windows i in
          let grabbed = record s {
            dragging = some i;
            drag_offset_x = mouse_x -ℤ win.x;
            drag_offset_y = mouse_y -ℤ win.y;
          } in
          let front = bring_to_front i grabbed in add_dirty_window (front.windows i) front
    ]
    else if not left_down
    then record s { dragging = none }
    else s

-- Where a dragged window goes along one axis: not before `least`, and its end not behind `size`; the
-- second test has the last word.
unfoldable pub clamp : (least size extent : ℕ) → ℤ → ℤ
clamp least size extent v =
    let v' = if ltb_ℤ v (pos least) then pos least else v in
    if ltb_ℤ (pos size) (v' +ℤ pos extent) then pos size -ℤ pos extent else v'

unfoldable pub drag : (screen_w screen_h : ℕ) (mouse_x mouse_y : ℤ) → Wm → Wm
drag screen_w screen_h mouse_x mouse_y s = elim s.dragging [
  | none ↦ s
  | some i ↦
      let win = s.windows i in
      let new_x = clamp 0 screen_w win.width (mouse_x -ℤ s.drag_offset_x) in
      let new_y = clamp titlebar_h screen_h win.height (mouse_y -ℤ s.drag_offset_y) in
      let moved = record win { x = new_x; y = new_y } in
      let s₁ = add_dirty_window win s in
      let s₂ = record s₁ { windows = update s₁.windows i moved } in
      let same_x = not (ltb_ℤ new_x win.x) && not (ltb_ℤ win.x new_x) in
      let same_y = not (ltb_ℤ new_y win.y) && not (ltb_ℤ win.y new_y) in
      if not same_x || not same_y then add_dirty_window moved s₂ else s
]
