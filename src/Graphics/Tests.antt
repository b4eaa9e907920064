-- ===== src/Graphics/Tests.antt =====
-- Instances of the graphics theorems.
use solstice_os.Base.{◌*◌, ◌≡◌, true, false, if◌then◌else◌, ltb, none, some, [], arith, refl}
use solstice_os.Base.Int.{◌-ℤ◌, pos, negsuc, ◌+ℤ◌}
use solstice_os.Graphics.Screen.{Screen, fill_rect, present_rect}
use solstice_os.Graphics.Pixels.{pixel, fill_rect-pixel, present_rect-pixel}
use solstice_os.Graphics.Windows.{
  add_dirty, add_dirty_window, bring_to_front, press, on_titlebar, hit_from, Window, Wm,
  titlebar_hit_test,
}
use solstice_os.Graphics.Order.{draw_order}
use solstice_os.Graphics.Sorted.{IsSorted, draw_order-IsSorted}
use solstice_os.Graphics.Desktop.{Desktop, wm_round}
use solstice_os.Graphics.Rounds.{wm_round-IsLayered}
use solstice_os.Graphics.Hits.{Best, titlebar_hit_test-Best}
use solstice_os.Graphics.Layers.{IsLayered}

-- Eight columns, of which the last two are not shown, and four rows.
abbrev small : Screen
small = record {
  width = 6;
  height = 4;
  stride = 8;
  clip_x0 = pos 1;
  clip_y0 = pos 0;
  clip_x1 = pos 6;
  clip_y1 = pos 3;
  backbuffer = λ i. 7;
  framebuffer = λ i. i;
}

fill_rect-pixel_example :
    (fill_rect (negsuc 1) (pos 1) (pos 5) (pos 9) 42 small).backbuffer (pixel 8 1 2) ≡ 42
unfolding ◌+ℤ◌
fill_rect-pixel_example =
    fill_rect-pixel (negsuc 1) (pos 1) (pos 5) (pos 9) 42 small 1 2 (omega arith) (omega arith)

present_rect-pixel_example :
    (present_rect (negsuc 1) (pos 1) (pos 5) (pos 9) small).framebuffer (pixel 8 3 2) ≡ 19
unfolding ◌+ℤ◌
present_rect-pixel_example =
    present_rect-pixel (negsuc 1) (pos 1) (pos 5) (pos 9) small 3 2 (omega arith) (omega arith)

abbrev no_window : Window
no_window = record {
  x = pos 0;
  y = pos 0;
  width = 0;
  height = 0;
  title = [];
  buffer = 0;
  layer = 0;
  is_dirty = false;
  in_use = false;
}

abbrev booted : Wm
booted = record {
  windows = λ i. no_window;
  window_count = 0;
  heap_next = 0x1400000;
  memory = λ a. 0;
  have_dirty = true;
  dx0 = pos 10;
  dy0 = pos 10;
  dx1 = pos 20;
  dy1 = pos 20;
  dragging = none;
  drag_offset_x = pos 0;
  drag_offset_y = pos 0;
}

booted-IsLayered : IsLayered booted
booted-IsLayered = record {
  below = λ i u. cc u;
  placed = λ i u. cc u;
  apart = λ i j u v ne. absurd (cc u);
}

abbrev two : Wm
two = record booted {
  windows = λ i.
      if ltb i 2
      then record no_window { y = pos 50; width = 100; height = 50; layer = 5 * i; in_use = true }
      else no_window;
}

titlebar_hit_test-Best_example :
    Best two.windows (pos 10) (pos 40) 8 (titlebar_hit_test (pos 10) (pos 40) two)
titlebar_hit_test-Best_example = titlebar_hit_test-Best (pos 10) (pos 40) two

-- Both title bars are under the point, and the second window is on top.
two_hit : titlebar_hit_test (pos 10) (pos 40) two ≡ some 1
unfolding titlebar_hit_test hit_from on_titlebar ◌-ℤ◌ ◌+ℤ◌
two_hit = refl

draw_order-IsSorted_example :
    IsSorted two.windows 8 (draw_order two.windows (λ k. 99)).0 (draw_order two.windows (λ k. 99)).1
draw_order-IsSorted_example = draw_order-IsSorted two.windows (λ k. 99)

-- Two windows at the same place, each with a buffer of its own, the second on top of the first.
abbrev layered : Wm
layered = record two {
  windows = λ i.
      if ltb i 2
      then record no_window {
        y = pos 50;
        width = 100;
        height = 50;
        buffer = 20000 * i;
        layer = 5 * i;
        in_use = true;
      }
      else no_window;
  window_count = 6;
  heap_next = 40000;
}

layered-IsLayered : IsLayered layered
layered-IsLayered = record {
  below = λ i u. ground arith;
  placed = λ i u. ground arith;
  apart = λ i j u v ne. ground arith;
}

-- The button goes down on the title bar of the window on top, which comes to the front and is dragged.
abbrev front_after : Wm
front_after = press true false (pos 10) (pos 40) layered

layered_run :
    (front_after.dragging ≡ some 1)
    × ((front_after.windows 1).layer ≡ 6)
    × (front_after.window_count ≡ 7)
unfolding press titlebar_hit_test hit_from on_titlebar ◌-ℤ◌ ◌+ℤ◌ bring_to_front add_dirty_window
    add_dirty
layered_run = (refl, refl, refl)

-- The windows' titles are not drawn here.
abbrev desktop : Desktop
desktop = record {
  wm = layered;
  screen = small;
  last = 0;
  last_mx = pos 1;
  last_my = pos 1;
  last_buttons = 0;
}

wm_round-IsLayered_example :
    IsLayered (wm_round (λ x y text fg bg s. s) 100 (pos 10) (pos 40) 1 desktop).wm
wm_round-IsLayered_example =
    wm_round-IsLayered (λ x y text fg bg s. s) 100 (pos 10) (pos 40) 1 desktop layered-IsLayered
