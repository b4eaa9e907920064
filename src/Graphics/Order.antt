-- ===== src/Graphics/Order.antt =====
-- The order in which `wm_draw` of src/kernel/wm/wm.cpp draws the windows.
use solstice_os.Base.{
  subst, ℕ, zero, suc, ◌+◌, ◌<◌, ◌≤◌, ◌≡◌, refl, ◌∙◌, ltb, ◌==◌, arith, if◌then◌else◌, Bool-cases,
  inl, inr,
}
use solstice_os.Base.Store.{update}
use solstice_os.Graphics.Windows.{Window, max_windows}

-- The inner loop, with the place `j` for the window `i`: the windows of higher layers move up.
unfoldable pub place_in : (windows : ℕ → Window) (i j : ℕ) → (ℕ → ℕ) → ℕ → ℕ
place_in windows i zero order = update order 0 i
place_in windows i (suc j) order =
    let moved = place_in windows i j (update order (suc j) (order j)) in
    if ltb (windows i).layer (windows (order j)).layer then moved else update order (suc j) i

-- The loop over the slots, at `i` with `left` to go and `n` windows in the list.
unfoldable pub sort_from : (windows : ℕ → Window) (left i n : ℕ) → (ℕ → ℕ) → ℕ × (ℕ → ℕ)
sort_from windows zero i n order = (n, order)
sort_from windows (suc left) i n order =
    let skipped = sort_from windows left (i + 1) n order in
    let taken = sort_from windows left (i + 1) (n + 1) (place_in windows i n order) in
    if (windows i).in_use then taken else skipped

-- The number of windows, and the slot of each in turn. The array starts with any values.
unfoldable pub draw_order : (windows : ℕ → Window) → (ℕ → ℕ) → ℕ × (ℕ → ℕ)
draw_order windows garbage = sort_from windows max_windows 0 0 garbage

-- `after` is `order` with `i` put in at the place `p` of the first `j`.
pub record Placed (windows : ℕ → Window) (i j : ℕ) (order after : ℕ → ℕ) (p : ℕ) : Type 0 where
  pub inside : p ≤ j
  pub before : (a : ℕ) → a < p → after a ≡ order a
  pub here : after p ≡ i
  pub behind : (a : ℕ) → p ≤ a → a < j → after (suc a) ≡ order a
  pub low : (a : ℕ) → suc a ≡ p → (windows (order a)).layer ≤ (windows i).layer
  pub high : (a : ℕ) → p ≤ a → a < j → (windows i).layer < (windows (order a)).layer

place_in-above :
    (windows : ℕ → Window) (i j : ℕ) (order : ℕ → ℕ) (a : ℕ)
    → j < a
    → place_in windows i j order a ≡ order a
unfolding place_in
place_in-above windows i zero order a above = ground arith
place_in-above windows i (suc j) order a above =
    ground (arith, place_in-above windows i j (update order (suc j) (order j)) a)

moved_same :
    (windows : ℕ → Window) (i j : ℕ) (order : ℕ → ℕ) (a : ℕ)
    → a < suc j
    → update order (suc j) (order j) a ≡ order a
moved_same windows i j order a less = ground arith

pub place_in-Placed :
    (windows : ℕ → Window) (i j : ℕ) (order : ℕ → ℕ)
    → (p : ℕ) × Placed windows i j order (place_in windows i j order) p
unfolding place_in
place_in-Placed windows i zero order = (
  0,
  record {
    inside = omega arith;
    before = λ a less. absurd (omega arith);
    here = refl;
    behind = λ a low less. absurd (omega arith);
    low = λ a e. absurd (omega (arith, e));
    high = λ a low less. absurd (omega arith);
  },
)
place_in-Placed windows i (suc j) order =
    elim (Bool-cases (ltb (windows i).layer (windows (order j)).layer)) [
      | inl higher ↦
          let order₂ = update order (suc j) (order j) in
          let (p, q) = place_in-Placed windows i j order₂ in
          let top : place_in windows i j order₂ (suc j) ≡ order j =
            place_in-above windows i j order₂ (suc j) (omega arith) ∙ ground arith in
          rw higher (
            p,
            record {
              inside = omega (arith, q.inside);
              before = λ a less.
                  q.before a less ∙ moved_same windows i j order a (omega (arith, q.inside));
              here = q.here;
              behind = λ a low less. elim (Bool-cases (a == j)) [
                | inl end ↦ let e : a ≡ j = ground arith in rw e top
                | inr inner ↦
                    q.behind a low (ground arith) ∙ moved_same windows i j order a (ground arith)
              ];
              low = λ a e.
                  subst (λ (s : ℕ). (windows s).layer ≤ (windows i).layer)
                    (moved_same windows i j order a (omega (arith, q.inside))) (q.low a e);
              high = λ a low less. elim (Bool-cases (a == j)) [
                | inl end ↦ let e : a ≡ j = ground arith in rw e (ground arith)
                | inr inner ↦
                    subst (λ (s : ℕ). (windows i).layer < (windows s).layer)
                      (moved_same windows i j order a (ground arith)) (q.high a low (ground arith))
              ];
            },
          )
      | inr last ↦ rw last (
        suc j,
        record {
          inside = omega arith;
          before = λ a less. ground arith;
          here = ground arith;
          behind = λ a low less. absurd (omega arith);
          low = λ a e. let same : a ≡ j = omega arith in rw same (ground arith);
          high = λ a low less. absurd (omega arith);
        },
      )
    ]
