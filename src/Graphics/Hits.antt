-- ===== src/Graphics/Hits.antt =====
-- Which window a click on a title bar is for.
use solstice_os.Base.{
  ◌↔◌, ◌||◌, refl, not, Bool, ◌↔◌, ℕ, zero, suc, ◌+◌, ◌<◌, ◌≤◌, ◌≡◌, inl, inr, ap, sym, subst, ◌∙◌,
  true, false, ◌&&◌, if◌then◌else◌, ltb, ◌==◌, Option, none, some, arith, Bool-cases,
}
use solstice_os.Base.Int.{int_laws, ℤ, pos, ◌+ℤ◌, ◌-ℤ◌, ◌≤ℤ◌, +ℤ_parts, ltb_ℤ}
use solstice_os.Graphics.Windows.{Window, Wm, on_titlebar, beats, hit_from, titlebar_hit_test}
use solstice_os.Graphics.Layers.{both}

-- The window for which `on_titlebar` is true, above all others of which this holds.
abbrev IsTopTested : (ℕ → Window) → (x y : ℤ) → (n i : ℕ) → Type 0
IsTopTested windows x y n i =
    (i < n)
    × ((windows i).in_use ≡ true)
    × (on_titlebar (windows i) x y ≡ true)
    × ((j : ℕ)
        → j < n
        → (windows j).in_use ≡ true
        → on_titlebar (windows j) x y ≡ true
        → (windows j).layer ≤ (windows i).layer)

-- The best of the first `n` slots.
data Tested (windows : ℕ → Window) (x y : ℤ) (n : ℕ) : Option ℕ → Type 0 where
  no_hit :
      ((j : ℕ) → j < n → (windows j).in_use ≡ true → on_titlebar (windows j) x y ≡ false)
      → Tested windows x y n none
  hit_on : {i : ℕ} → IsTopTested windows x y n i → Tested windows x y n (some i)

Tested-suc :
    (i : ℕ) (windows : ℕ → Window) (x y : ℤ) (best : Option ℕ)
    → Tested windows x y i best
    → Tested windows x y (i + 1) (
        if (windows i).in_use && on_titlebar (windows i) x y && beats windows i best
        then some i
        else best)
unfolding on_titlebar
Tested-suc i windows x y none (no_hit before) =
    elim (Bool-cases ((windows i).in_use && on_titlebar (windows i) x y)) [
      | inl hit ↦
          let (used, on) = both (windows i).in_use (on_titlebar (windows i) x y) hit in
          rw (used, on)
            (hit_on (
              omega arith,
              used,
              on,
              λ j h u o. elim (Bool-cases (i == j)) [
                | inl here ↦
                    let q : i ≡ j = ground arith in
                    subst (λ k. (windows k).layer ≤ (windows i).layer) q (omega arith)
                | inr other ↦ absurd (cc (before j (ground arith) u, o))
              ],
            ))
      | inr miss ↦
          let off : ((windows i).in_use && on_titlebar (windows i) x y && true) ≡ false =
            ground (arith, miss) in
          rw off (
            no_hit λ j h u. elim (Bool-cases (i == j)) [
              | inl here ↦
                  let q : i ≡ j = ground arith in
                  let u' : (windows i).in_use ≡ true = ap (λ k. (windows k).in_use) q ∙ u in
                  sym (ap (λ k. on_titlebar (windows k) x y) q) ∙ cc (miss, u')
              | inr other ↦ before j (ground arith) u
            ])
    ]
Tested-suc i windows x y (some k) (hit_on is) =
    elim (Bool-cases (
      (windows i).in_use
      && on_titlebar (windows i) x y
      && ltb (windows k).layer (windows i).layer)) [
        | inl hit ↦
            let (hit', higher) =
              both ((windows i).in_use && on_titlebar (windows i) x y)
                (ltb (windows k).layer (windows i).layer) hit in
            let (used, on) = both (windows i).in_use (on_titlebar (windows i) x y) hit' in
            rw hit (
              hit_on (
                omega arith,
                used,
                on,
                λ j h u o. elim (Bool-cases (i == j)) [
                  | inl here ↦
                      let q : i ≡ j = ground arith in
                      subst (λ n. (windows n).layer ≤ (windows i).layer) q (omega arith)
                  | inr other ↦ let le = is.3 j (ground arith) u o in ground (arith, le, higher)
                ],
              ))
        | inr miss ↦ rw miss (
            hit_on (
              omega (arith, is.0),
              is.1,
              is.2,
              λ j h u o. elim (Bool-cases (i == j)) [
                | inl here ↦
                    let q : i ≡ j = ground arith in
                    let u' : (windows i).in_use ≡ true = ap (λ n. (windows n).in_use) q ∙ u in
                    let o' : on_titlebar (windows i) x y ≡ true =
                      ap (λ n. on_titlebar (windows n) x y) q ∙ o in
                    let low : (windows i).layer ≤ (windows k).layer =
                      ground (arith, miss, u', o') in
                    subst (λ n. (windows n).layer ≤ (windows k).layer) q low
                | inr other ↦ is.3 j (ground arith) u o
              ],
            ))
      ]

hit_from-Tested :
    (left i : ℕ) (windows : ℕ → Window) (x y : ℤ) (best : Option ℕ)
    → Tested windows x y i best
    → Tested windows x y (i + left) (hit_from left i windows x y best)
unfolding hit_from
hit_from-Tested zero i windows x y best is = subst (λ n. Tested windows x y n best) (omega arith) is
hit_from-Tested (suc left) i windows x y best is =
    let hit = (windows i).in_use && on_titlebar (windows i) x y && beats windows i best in
    subst
      (λ n. Tested windows x y n (hit_from left (i + 1) windows x y (if hit then some i else best)))
      (omega arith)
      (hit_from-Tested left (i + 1) windows x y (if hit then some i else best)
        (Tested-suc i windows x y best is))

-- The `n` integers from `lo` on.
abbrev pub Within : (v lo : ℤ) (n : ℕ) → Type 0
Within v lo n = (lo ≤ℤ v) × (v +ℤ pos 1 ≤ℤ lo +ℤ pos n)

-- A point of the 24 rows above a window, but not of the close button: a square of 16 pixels, 4 from the
-- right, from the top and from the bottom of these rows.
abbrev pub OnTitlebar : Window → (x y : ℤ) → Type 0
OnTitlebar win x y =
    Within x win.x win.width
    × Within y (win.y -ℤ pos 24) 24
    × ¬ (Within x (win.x +ℤ pos win.width -ℤ pos 20) 16 × Within y (win.y -ℤ pos 20) 16)

abbrev within : (v lo : ℤ) (n : ℕ) → Bool
within v lo n = not (ltb_ℤ v lo) && ltb_ℤ v (lo +ℤ pos n)

within-Within : (v lo : ℤ) (n : ℕ) → (within v lo n ≡ true) ↔ Within v lo n
within-Within v lo n =
    let next = +ℤ_parts v (pos 1) in (λ e. ground (arith, next), λ is. ground (arith, next))

regroup :
    (a b c d e f g h : Bool)
    → (not (a || not b) && not (c || not d) && not (e && f && g && h))
      ≡ (not a && b && (not c && d) && not (e && f && (g && h)))
regroup true b c d e f g h = refl
regroup false false c d e f g h = refl
regroup false true true d e f g h = refl
regroup false true false false e f g h = refl
regroup false true false true false f g h = refl
regroup false true false true true false g h = refl
regroup false true false true true true g h = refl

holds :
    {A B C D : Type 0} (a b c d : Bool)
    → (a ≡ true) ↔ A
    → (b ≡ true) ↔ B
    → (c ≡ true) ↔ C
    → (d ≡ true) ↔ D
    → ((a && b && not (c && d)) ≡ true) ↔ (A × B × ¬ (C × D))
holds a b c d p q r s = (
  λ e.
      let (in_a, out) = both (a && b) (not (c && d)) e in
      let (in_x, in_y) = both a b in_a in
      (p.0 in_x, q.0 in_y, λ box. cc (out, r.1 box.0, s.1 box.1)),
  λ on. elim (Bool-cases (c && d)) [
    | inl box ↦ let (in_x, in_y) = both c d box in absurd (on.2 (r.0 in_x, s.0 in_y))
    | inr out ↦ cc (out, p.1 on.0, q.1 on.1)
  ],
)

on_titlebar-within :
    (win : Window) (x y : ℤ)
    → on_titlebar win x y ≡ (
        within x win.x win.width
        && within y (win.y -ℤ pos 24) 24
        && not (within x (win.x +ℤ pos win.width -ℤ pos 20) 16 && within y (win.y -ℤ pos 20) 16))
unfolding on_titlebar
on_titlebar-within win x y =
    let right = win.x +ℤ pos win.width in
    let above = win.y -ℤ pos 24 in
    let down : above +ℤ pos 24 ≡ win.y = grind int_laws in
    let close_x0 : right -ℤ pos 24 +ℤ pos 4 ≡ right -ℤ pos 20 = grind int_laws in
    let close_y0 : above +ℤ pos 4 ≡ win.y -ℤ pos 20 = grind int_laws in
    rw (down, close_x0, close_y0, on_titlebar)
      (regroup (ltb_ℤ x win.x) (ltb_ℤ x right) (ltb_ℤ y above) (ltb_ℤ y win.y)
        (not (ltb_ℤ x (right -ℤ pos 20))) (ltb_ℤ x (right -ℤ pos 20 +ℤ pos 16))
        (not (ltb_ℤ y (win.y -ℤ pos 20))) (ltb_ℤ y (win.y -ℤ pos 20 +ℤ pos 16)))

on_titlebar-OnTitlebar :
    (win : Window) (x y : ℤ) → (on_titlebar win x y ≡ true) ↔ OnTitlebar win x y
on_titlebar-OnTitlebar win x y =
    let e = on_titlebar-within win x y in
    let a = within-Within x win.x win.width in
    let b = within-Within y (win.y -ℤ pos 24) 24 in
    let c = within-Within x (win.x +ℤ pos win.width -ℤ pos 20) 16 in
    let d = within-Within y (win.y -ℤ pos 20) 16 in
    let is = holds _ _ _ _ a b c d in (λ on. is.0 (sym e ∙ on), λ on. e ∙ is.1 on)

-- The window on whose title bar the point is, above all others of which this holds.
abbrev pub IsTop : (ℕ → Window) → (x y : ℤ) → (n i : ℕ) → Type 0
IsTop windows x y n i =
    (i < n)
    × ((windows i).in_use ≡ true)
    × OnTitlebar (windows i) x y
    × ((j : ℕ)
        → j < n
        → (windows j).in_use ≡ true
        → OnTitlebar (windows j) x y
        → (windows j).layer ≤ (windows i).layer)

-- The best of the first `n` slots.
pub data Best (windows : ℕ → Window) (x y : ℤ) (n : ℕ) : Option ℕ → Type 0 where
  nothing :
      ((j : ℕ) → j < n → (windows j).in_use ≡ true → ¬ (OnTitlebar (windows j) x y))
      → Best windows x y n none
  top : {i : ℕ} → IsTop windows x y n i → Best windows x y n (some i)

Tested-Best :
    (windows : ℕ → Window) (x y : ℤ) (n : ℕ) (best : Option ℕ)
    → Tested windows x y n best
    → Best windows x y n best
Tested-Best windows x y n none (no_hit before) =
    nothing λ j h u on. cc (before j h u, (on_titlebar-OnTitlebar (windows j) x y).1 on)
Tested-Best windows x y n (some i) (hit_on (less, used, on, above)) = top (
  less,
  used,
  (on_titlebar-OnTitlebar (windows i) x y).0 on,
  λ j h u there. above j h u ((on_titlebar-OnTitlebar (windows j) x y).1 there),
)

-- `wm_titlebar_hit_test` finds the window on top: of all windows in use with the point on the title
-- bar, and not on the close button, one with the greatest layer, and none exactly if there is none.
pub titlebar_hit_test-Best : (x y : ℤ) (s : Wm) → Best s.windows x y 8 (titlebar_hit_test x y s)
unfolding titlebar_hit_test
titlebar_hit_test-Best x y s =
    Tested-Best s.windows x y 8 (titlebar_hit_test x y s)
      (hit_from-Tested 8 0 s.windows x y none (no_hit λ j h. absurd (omega arith)))
