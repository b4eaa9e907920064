-- ===== src/Graphics/Sorted.antt =====
-- The windows in the order of `wm_draw` of src/kernel/wm/wm.cpp are sorted.
use mathlib.Core.Bool.{true≢false}
use solstice_os.Base.{
  subst, ℕ, zero, suc, ◌+◌, ◌-◌, ◌<◌, ◌≤◌, ◌≡◌, ◌≢◌, ap, sym, ◌∙◌, true, false, ltb, ◌==◌, arith,
  if◌then◌else◌, Bool-cases, inl, inr,
}
use solstice_os.Graphics.Windows.{Window}
use solstice_os.Graphics.Order.{place_in, sort_from, draw_order, Placed, place_in-Placed}

-- The first `n` entries are different slots of windows in use below `i`, all of them, from the lowest
-- layer to the highest.
pub record IsSorted (windows : ℕ → Window) (i n : ℕ) (order : ℕ → ℕ) : Type 0 where
  pub sorted : (a b : ℕ) → a < b → b < n → (windows (order a)).layer ≤ (windows (order b)).layer
  pub distinct : (a b : ℕ) → a < b → b < n → order a ≢ order b
  pub used : (a : ℕ) → a < n → ((windows (order a)).in_use ≡ true) × (order a < i)
  pub all : (s : ℕ) → s < i → (windows s).in_use ≡ true → (a : ℕ) × (a < n) × (order a ≡ s)

-- Where the entry at `a` came from, for a place other than `p`.
abbrev from : (p a : ℕ) → ℕ
from p a = if ltb a p then a else a - 1

Placed-from :
    (windows : ℕ → Window) (i n : ℕ) (order after : ℕ → ℕ) (p a : ℕ)
    → Placed windows i n order after p
    → a < n + 1
    → a ≢ p
    → (after a ≡ order (from p a)) × (from p a < n)
Placed-from windows i n order after p a placed less other = elim (Bool-cases (ltb a p)) [
  | inl low ↦ rw low (placed.before a (ground arith), ground (arith, placed.inside))
  | inr high ↦
      let above : p < a = ground (arith, other) in
      let e : suc (a - 1) ≡ a = omega arith in
      rw high
        (ap after (sym e) ∙ placed.behind (a - 1) (omega (arith, above)) (omega arith), omega arith)
]

module _ (windows : ℕ → Window) (i n : ℕ) (order : ℕ → ℕ) (v : IsSorted windows i n order)
    (after : ℕ → ℕ) (p : ℕ) (q : Placed windows i n order after p) where
  low_all : (a : ℕ) → a < p → (windows (order a)).layer ≤ (windows i).layer
  low_all a less = elim (Bool-cases (suc a == p)) [
    | inl last ↦ q.low a (ground arith)
    | inr inner ↦
        let e : suc (p - 1) ≡ p = omega arith in
        let last = q.low (p - 1) e in
        let upto = v.sorted a (p - 1) (ground arith) (omega (arith, q.inside)) in
        omega (arith, last, upto)
  ]

  after-sorted :
      (a b : ℕ) → a < b → b < n + 1 → (windows (after a)).layer ≤ (windows (after b)).layer
  after-sorted a b less inside = elim (Bool-cases (a == p)) [
    | inl start ↦
        let e : a ≡ p = ground arith in
        let (from_b, small) = Placed-from windows i n order after p b q inside (omega (arith, e)) in
        let above = q.high (from p b) (ground (arith, e)) small in
        rw (e, q.here, from_b) (omega (arith, above))
    | inr other ↦
        let (from_a, small_a) =
          Placed-from windows i n order after p a q (omega arith) (ground arith) in
        elim (Bool-cases (b == p)) [
          | inl end ↦
              let e : b ≡ p = ground arith in
              let f : after a ≡ order a = q.before a (omega (arith, e)) in
              rw (e, q.here, f) (low_all a (omega (arith, e)))
          | inr other_b ↦
              let (from_b, small_b) =
                Placed-from windows i n order after p b q inside (ground arith) in
              rw (from_a, from_b) (v.sorted (from p a) (from p b) (ground arith) small_b)
        ]
  ]

  after-distinct : (a b : ℕ) → a < b → b < n + 1 → after a ≢ after b
  after-distinct a b less inside same = elim (Bool-cases (a == p)) [
    | inl start ↦
        let e : a ≡ p = ground arith in
        let (from_b, small) = Placed-from windows i n order after p b q inside (omega (arith, e)) in
        let (_, below) = v.used (from p b) small in
        let first : after a ≡ i = ap after e ∙ q.here in omega (arith, same, first, from_b, below)
    | inr other ↦
        let (from_a, small_a) =
          Placed-from windows i n order after p a q (omega arith) (ground arith) in
        let (_, below) = v.used (from p a) small_a in
        elim (Bool-cases (b == p)) [
          | inl end ↦
              let e : b ≡ p = ground arith in
              let last : after b ≡ i = ap after e ∙ q.here in
              omega (arith, same, last, from_a, below)
          | inr other_b ↦
              let (from_b, small_b) =
                Placed-from windows i n order after p b q inside (ground arith) in
              v.distinct (from p a) (from p b) (ground arith) small_b (sym from_a ∙ same ∙ from_b)
        ]
  ]

  after-used :
      (windows i).in_use ≡ true
      → (a : ℕ) → a < n + 1
      → ((windows (after a)).in_use ≡ true) × (after a < i + 1)
  after-used in_use a inside = elim (Bool-cases (a == p)) [
    | inl start ↦
        let e : after a ≡ i = ap after (let h : a ≡ p = ground arith in h) ∙ q.here in
        rw e (in_use, omega arith)
    | inr other ↦
        let (e, small) = Placed-from windows i n order after p a q inside (ground arith) in
        let (used, below) = v.used (from p a) small in rw e (used, omega (arith, below))
  ]

  after-all :
      (s : ℕ) → s < i + 1 → (windows s).in_use ≡ true → (a : ℕ) × (a < n + 1) × (after a ≡ s)
  after-all s below in_use = elim (Bool-cases (s == i)) [
    | inl new ↦ (p, omega (arith, q.inside), q.here ∙ ground arith)
    | inr old ↦
        let (a, small, e) = v.all s (ground arith) in_use in
        elim (Bool-cases (ltb a p)) [
          | inl low ↦ (a, omega (arith, small), q.before a (ground arith) ∙ e)
          | inr high ↦ (suc a, omega (arith, small), q.behind a (ground arith) small ∙ e)
        ]
  ]

place_in-IsSorted :
    (windows : ℕ → Window) (i n : ℕ) (order : ℕ → ℕ)
    → IsSorted windows i n order
    → (windows i).in_use ≡ true
    → IsSorted windows (i + 1) (n + 1) (place_in windows i n order)
place_in-IsSorted windows i n order v in_use =
    let (p, q) = place_in-Placed windows i n order in
    let after = place_in windows i n order in
    record {
      sorted = after-sorted windows i n order v after p q;
      distinct = after-distinct windows i n order v after p q;
      used = after-used windows i n order v after p q in_use;
      all = after-all windows i n order v after p q;
    }

skip-IsSorted :
    (windows : ℕ → Window) (i n : ℕ) (order : ℕ → ℕ)
    → IsSorted windows i n order
    → (windows i).in_use ≡ false
    → IsSorted windows (i + 1) n order
skip-IsSorted windows i n order v idle = record {
  sorted = v.sorted;
  distinct = v.distinct;
  used = λ a inside. ((v.used a inside).0, omega (arith, v.used a inside));
  all = λ s below in_use. elim (Bool-cases (s == i)) [
    | inl new ↦
        let e : s ≡ i = ground arith in
        absurd (true≢false (sym in_use ∙ ap (λ (t : ℕ). (windows t).in_use) e ∙ idle))
    | inr old ↦ v.all s (ground arith) in_use
  ];
}

sort_from-IsSorted :
    (windows : ℕ → Window) (left i n : ℕ) (order : ℕ → ℕ)
    → IsSorted windows i n order
    → IsSorted windows
        (i + left)
        (sort_from windows left i n order).0
        (sort_from windows left i n order).1
unfolding sort_from
sort_from-IsSorted windows zero i n order v =
    subst (λ (t : ℕ). IsSorted windows t n order) (let e : i ≡ i + 0 = omega arith in e) v
sort_from-IsSorted windows (suc left) i n order v =
    let e : i + 1 + left ≡ i + suc left = omega arith in
    elim (Bool-cases (windows i).in_use) [
      | inl in_use ↦
          let rest =
            sort_from-IsSorted windows left (i + 1) (n + 1) (place_in windows i n order)
              (place_in-IsSorted windows i n order v in_use) in
          rw in_use (rw e at rest)
      | inr idle ↦
          let rest =
            sort_from-IsSorted windows left (i + 1) n order
              (skip-IsSorted windows i n order v idle) in
          rw idle (rw e at rest)
    ]

-- `wm_draw` draws exactly the windows in use, each once, from the lowest layer to the highest,
-- whatever its array holds at first.
pub draw_order-IsSorted :
    (windows : ℕ → Window) (garbage : ℕ → ℕ)
    → IsSorted windows 8 (draw_order windows garbage).0 (draw_order windows garbage).1
unfolding draw_order
draw_order-IsSorted windows garbage = sort_from-IsSorted windows 8 0 0 garbage (record {
  sorted = λ a b less inside. absurd (omega arith);
  distinct = λ a b less inside. absurd (omega arith);
  used = λ a inside. absurd (omega arith);
  all = λ s below in_use. absurd (omega arith);
})
