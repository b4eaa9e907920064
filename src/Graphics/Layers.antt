-- ===== src/Graphics/Layers.antt =====
-- What the window manager keeps true of its windows.
use solstice_os.Base.{
  ℕ, zero, suc, ◌+◌, ◌*◌, ◌<◌, ◌≤◌, ◌≡◌, ◌≢◌, ◌⊎◌, inl, inr, refl, ap, sym, subst, ◌∙◌, Bool, true,
  false, not, ◌||◌, ◌&&◌, if◌then◌else◌, ◌==◌, Option, none, some, List, arith, Bool-cases,
  Option-cases,
}
use solstice_os.Base.Int.{ℤ, pos, ◌+ℤ◌, ◌-ℤ◌, ◌≤ℤ◌, ltb_ℤ, +ℤ_parts, -ℤ_parts}
use solstice_os.Graphics.Windows.{
  Window, Wm, add_dirty, unused, create_window, bring_to_front, clamp,
}

-- The bytes behind a window's pixels.
abbrev pub end_of : Window → ℕ
end_of win = win.buffer + win.width * win.height * 4

-- No two windows in use have the same layer, or a pixel in common; every layer is below the count, and
-- every buffer ends before the next one to come.
pub record IsLayered (s : Wm) : Type 0 where
  pub below : (i : ℕ) → (s.windows i).in_use ≡ true → (s.windows i).layer < s.window_count
  pub placed : (i : ℕ) → (s.windows i).in_use ≡ true → end_of (s.windows i) ≤ s.heap_next
  pub apart :
      (i j : ℕ)
      → (s.windows i).in_use ≡ true
      → (s.windows j).in_use ≡ true
      → i ≢ j
      → ((s.windows i).layer ≢ (s.windows j).layer)
        × ((end_of (s.windows i) ≤ (s.windows j).buffer)
            ⊎ (end_of (s.windows j) ≤ (s.windows i).buffer))

unused_lem :
    (left i : ℕ) (windows : ℕ → Window) (n : ℕ)
    → unused left i windows ≡ some n
    → (i ≤ n) × (n < i + left) × ((windows n).in_use ≡ false)
unfolding unused
unused_lem zero i windows n e = absurd (cc e)
unused_lem (suc left) i windows n e = elim (Bool-cases (windows i).in_use) [
  | inl taken ↦
      let ih = unused_lem left (i + 1) windows n (ground arith) in
      (omega (arith, ih.0), omega (arith, ih.1), ih.2)
  | inr free ↦ let q : i ≡ n = ground arith in ground (arith, ap (λ j. (windows j).in_use) q)
]

unused-none :
    (left i : ℕ) (windows : ℕ → Window)
    → unused left i windows ≡ none
    → (j : ℕ) → i ≤ j
    → j < i + left
    → (windows j).in_use ≡ true
unfolding unused
unused-none zero i windows e j le lt = absurd (omega arith)
unused-none (suc left) i windows e j le lt = elim (Bool-cases (windows i).in_use) [
  | inl taken ↦ elim (Bool-cases (i == j)) [
    | inl here ↦ let q : i ≡ j = ground arith in sym (ap (λ k. (windows k).in_use) q) ∙ taken
    | inr later ↦ unused-none left (i + 1) windows (ground arith) j (ground arith) (omega arith)
  ]
  | inr free ↦ absurd (ground arith)
]

-- The parts of `IsLayered` speak of layers and buffers alone.
pub front-IsLayered : (i : ℕ) (s : Wm) → IsLayered s → IsLayered (bring_to_front i s)
unfolding bring_to_front
front-IsLayered i s is = record {
  below = λ k u. ground (arith, is.below k);
  placed = λ k u. ground (arith, is.placed k);
  apart = λ j k uj uk ne.
      ground (arith, is.apart j k, is.apart i k, is.apart j i, is.below j, is.below k);
}

-- How a call of `wm_create_window` may end: without a slot nothing changes; else the window in a slot
-- that was free is as asked for, on top of all others, and the other windows are as before.
abbrev pub Opened : (w h : ℕ) → Wm → Option ℕ × Wm → Type 0
Opened w h s r =
    ((r ≡ (none, s)) × ((j : ℕ) → j < 8 → (s.windows j).in_use ≡ true))
    ⊎ ((i : ℕ) × (r.0 ≡ some i)
        × (i < 8)
        × ((s.windows i).in_use ≡ false)
        × ((r.1.windows i).in_use ≡ true)
        × ((r.1.windows i).width ≡ w)
        × ((r.1.windows i).height ≡ h)
        × ((r.1.windows i).layer ≡ s.window_count)
        × ((j : ℕ) → j ≢ i → r.1.windows j ≡ s.windows j))

-- `wm_create_window` takes a free slot and puts the window on top, or changes nothing when all 8 slots
-- are in use; in either case layers and pixels stay apart.
pub create_window-IsLayered :
    (title : List ℕ) (x y : ℤ) (w h : ℕ) (s : Wm)
    → IsLayered s
    → Opened w h s (create_window title x y w h s) × IsLayered (create_window title x y w h s).1
unfolding create_window
create_window-IsLayered title x y w h s is = elim (Option-cases (unused 8 0 s.windows)) [
  | inl e ↦
      rw (e, create_window)
        (inl (refl, λ j h. unused-none 8 0 s.windows e j (omega arith) (omega arith)), is)
  | inr (i, e) ↦
      let at = unused_lem 8 0 s.windows i e in
      rw (e, create_window)
        (
          inr (
            i,
            refl,
            omega (arith, at.1),
            at.2,
            ground arith,
            ground arith,
            ground arith,
            ground arith,
            λ j ne. ground arith,
          ),
          record {
            below = λ k u. ground (arith, is.below k);
            placed = λ k u. ground (arith, is.placed k);
            apart = λ j k uj uk ne.
                ground (arith, is.apart j k, is.below j, is.below k, is.placed j, is.placed k);
          },
        )
]

-- A point in the dirty box of the window manager.
abbrev pub is_in : (x0 y0 x1 y1 px py : ℤ) → Bool
is_in x0 y0 x1 y1 px py = not (ltb_ℤ px x0) && ltb_ℤ px x1 && (not (ltb_ℤ py y0) && ltb_ℤ py y1)

abbrev pub is_dirty_at : Wm → (px py : ℤ) → Bool
is_dirty_at s px py = s.have_dirty && is_in s.dx0 s.dy0 s.dx1 s.dy1 px py

-- The box along one axis.
abbrev grown : (a b d e p : ℤ) → Bool
grown a b d e p = not (ltb_ℤ p (if ltb_ℤ a d then a else d)) && ltb_ℤ p (if ltb_ℤ e b then b else e)

grown_new : (a b d e p : ℤ) → (not (ltb_ℤ p a) && ltb_ℤ p b) ≡ true → grown a b d e p ≡ true
grown_new a b d e p inside = ground arith

grown_old : (a b d e p : ℤ) → (not (ltb_ℤ p d) && ltb_ℤ p e) ≡ true → grown a b d e p ≡ true
grown_old a b d e p inside = ground arith

pub both : (a b : Bool) → (a && b) ≡ true → (a ≡ true) × (b ≡ true)
both a b e = ground arith

first_of : (a b c : Bool) → (a && b || c) ≡ true → c ≡ false → b ≡ true
first_of a b c e no_c = ground arith

-- Marking a rectangle makes every point of it dirty, and what was dirty stays so.
pub add_dirty-covers :
    (x y w h : ℤ) (s : Wm) (px py : ℤ)
    → (is_dirty_at s px py || is_in x y (x +ℤ w) (y +ℤ h) px py) ≡ true
    → is_dirty_at (add_dirty x y w h s) px py ≡ true
unfolding add_dirty
add_dirty-covers x y w h s px py marked = elim (Bool-cases s.have_dirty) [
  | inr clean ↦ rw clean (
      subst
        (λ b.
          (b && is_in s.dx0 s.dy0 s.dx1 s.dy1 px py || is_in x y (x +ℤ w) (y +ℤ h) px py) ≡ true)
        clean marked)
  | inl dirty ↦ elim (Bool-cases (is_in x y (x +ℤ w) (y +ℤ h) px py)) [
    | inl new ↦
        let (in_x, in_y) =
          both (not (ltb_ℤ px x) && ltb_ℤ px (x +ℤ w)) (not (ltb_ℤ py y) && ltb_ℤ py (y +ℤ h))
            new in
        rw
          (
            dirty,
            grown_new x (x +ℤ w) s.dx0 s.dx1 px in_x,
            grown_new y (y +ℤ h) s.dy0 s.dy1 py in_y,
          )
          refl
    | inr old ↦
        let was =
          first_of s.have_dirty (is_in s.dx0 s.dy0 s.dx1 s.dy1 px py)
            (is_in x y (x +ℤ w) (y +ℤ h) px py) marked old in
        let (in_x, in_y) =
          both (not (ltb_ℤ px s.dx0) && ltb_ℤ px s.dx1) (not (ltb_ℤ py s.dy0) && ltb_ℤ py s.dy1)
            was in
        rw
          (
            dirty,
            grown_old x (x +ℤ w) s.dx0 s.dx1 px in_x,
            grown_old y (y +ℤ h) s.dy0 s.dy1 py in_y,
          )
          refl
  ]
]

-- Along one axis, where the window and the space before it fit the screen: `wm_task` drags a
-- window neither before that space, nor its end off the screen.
pub clamp-inside :
    (least size extent : ℕ) (v : ℤ)
    → least + extent ≤ size
    → (pos least ≤ℤ clamp least size extent v)
      × (clamp least size extent v +ℤ pos extent ≤ℤ pos size)
unfolding clamp
clamp-inside least size extent v room =
    let v' = if ltb_ℤ v (pos least) then pos least else v in
    let low : pos least ≤ℤ v' = ground arith in
    let a = +ℤ_parts v' (pos extent) in
    let b = -ℤ_parts (pos size) (pos extent) in
    let c = +ℤ_parts (pos size -ℤ pos extent) (pos extent) in
    elim (Bool-cases (ltb_ℤ (pos size) (v' +ℤ pos extent))) [
      | inl behind ↦ rw behind (omega (arith, b), omega (arith, b, c))
      | inr inside ↦ rw inside (low, ground arith)
    ]
