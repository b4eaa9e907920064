-- ===== src/Apps/Calculator/Chain.antt =====
-- The calculator computes what is typed, from the left to the right.
use solstice_os.Base.{
  zero, suc, ◌/◌, ◌<◌, ◌^◌, ◌/◌, ◌^◌, ◌<◌, ℕ, ◌+◌, ◌-◌, ◌*◌, ◌≤◌, ◌≡◌, refl, ap, ◌∙◌, true, false,
  ◌==◌, List, [], ◌∷◌, ◌++◌, arith,
}
use solstice_os.Base.Int.{int32_lem, IsInt32, ◌-ℤ◌, ℤ, pos, ◌+ℤ◌, ◌*ℤ◌}
use solstice_os.Apps.Calculator.{
  sub_ℕ, negsuc, int32, suc, Calc, initial, apply_op, itoa_dec, is_digit, settle, on_button,
}

abbrev pub press_all : List ℕ → Calc → Calc
press_all [] c = c
press_all (label ∷ labels) c = press_all labels (on_button label c)

press_all-append :
    (xs ys : List ℕ) (c : Calc) → press_all (xs ++ ys) c ≡ press_all ys (press_all xs c)
press_all-append [] ys c = refl
press_all-append (x ∷ xs) ys c = press_all-append xs ys (on_button x c)

-- The labels of a number, and the number.
abbrev pub AreDigits : List ℕ → Type 0
AreDigits [] = Unit {0}
AreDigits (d ∷ ds) = (b'0' ≤ d) × (d ≤ b'9') × AreDigits ds

abbrev pub number_from : ℕ → List ℕ → ℕ
number_from n [] = n
number_from n (d ∷ ds) = number_from (n * 10 + (d - b'0')) ds

-- The operators, with their labels and what they stand for: a division goes towards 0, and one by 0
-- leaves the number.
pub data Op : Type 0 where
  plus minus times over : Op

abbrev pub label_of : Op → ℕ
label_of plus = b'+'
label_of minus = b'-'
label_of times = b'*'
label_of over = b'/'

abbrev pub calculate : Op → ℤ → ℕ → ℤ
calculate plus a n = a +ℤ pos n
calculate minus a n = a -ℤ pos n
calculate times a n = a *ℤ pos n
calculate over a zero = a
calculate over (pos m) (suc n) = pos (m / suc n)
calculate over (negsuc m) (suc n) = sub_ℕ 0 (suc m / suc n)

-- What is typed behind the first number: each time an operator and a number.
pub record Term : Type 0 where
  pub op : Op
  pub first : ℕ
  pub digits : List ℕ

abbrev pub term_value : Term → ℕ
term_value t = number_from 0 (t.first ∷ t.digits)

abbrev pub AreTerms : List Term → Type 0
AreTerms [] = Unit {0}
AreTerms (t ∷ ts) = AreDigits (t.first ∷ t.digits) × (term_value t < 2 ^ 31) × AreTerms ts

abbrev pub typed : List Term → List ℕ
typed [] = b'=' ∷ []
typed (t ∷ ts) = label_of t.op ∷ t.first ∷ t.digits ++ typed ts

-- The value of the chain, from the left to the right.
abbrev pub value_from : ℤ → List Term → ℤ
value_from a [] = a
value_from a (t ∷ ts) = value_from (calculate t.op a (term_value t)) ts

-- The results on the way are 32-bit integers.
abbrev pub StaysInt32 : ℤ → List Term → Type 0
StaysInt32 a [] = Unit {0}
StaysInt32 a (t ∷ ts) = let b = calculate t.op a (term_value t) in IsInt32 b × StaysInt32 b ts

apply_op-calculate :
    (op : Op) (a : ℤ) (n : ℕ)
    → IsInt32 (calculate op a n)
    → apply_op a (pos n) (label_of op) ≡ calculate op a n
unfolding apply_op
apply_op-calculate plus a n fits = int32_lem (a +ℤ pos n) fits
apply_op-calculate minus a n fits = int32_lem (a -ℤ pos n) fits
apply_op-calculate times a n fits = int32_lem (a *ℤ pos n) fits
apply_op-calculate over a zero fits = refl
apply_op-calculate over (pos m) (suc n) fits =
    let some_number : (suc n + 0 == 0) ≡ false = ground arith in
    rw some_number (int32_lem (pos (m / suc n)) fits)
apply_op-calculate over (negsuc m) (suc n) fits =
    let some_number : (suc n + 0 == 0) ≡ false = ground arith in
    rw some_number (int32_lem (sub_ℕ 0 (suc m / suc n)) fits)

number_from-le : (ds : List ℕ) (n : ℕ) → n ≤ number_from n ds
number_from-le [] n = omega arith
number_from-le (d ∷ ds) n = omega (arith, number_from-le ds (n * 10 + (d - b'0')))

next_digit :
    (n d : ℕ) → n * 10 + d < 2 ^ 31 → int32 (int32 (pos n *ℤ pos 10) +ℤ pos d) ≡ pos (n * 10 + d)
next_digit n d small =
    let product : pos n *ℤ pos 10 ≡ pos (n * 10) = unfold ◌*ℤ◌ in ground arith in
    let sum : pos (n * 10) +ℤ pos d ≡ pos (n * 10 + d) = unfold ◌+ℤ◌ in ground arith in
    ap (λ (a : ℤ). int32 (int32 a +ℤ pos d)) product
    ∙ ap (λ (a : ℤ). int32 (a +ℤ pos d))
        (int32_lem (pos (n * 10)) (omega (arith, small), omega arith))
    ∙ ap int32 sum
    ∙ int32_lem (pos (n * 10 + d)) (small, omega arith)

-- While a number is typed.
digits_follow :
    (ds : List ℕ) (c : Calc) (n : ℕ)
    → AreDigits ds
    → c.display_value ≡ pos n
    → c.start_new_number ≡ false
    → number_from n ds < 2 ^ 31
    → let c' = press_all ds c in
      (c'.display_value ≡ pos (number_from n ds))
      × (c'.start_new_number ≡ false)
      × (c'.pending_op ≡ c.pending_op)
      × (c'.pending_value ≡ c.pending_value)
unfolding on_button
digits_follow [] c n are shows going small = (shows, going, refl, refl)
digits_follow (d ∷ ds) c n are shows going small =
    let bound = number_from-le ds (n * 10 + (d - b'0')) in
    let digit : is_digit d ≡ true = ground (arith, are.0, are.1) in
    let next : (on_button d c).display_value ≡ pos (n * 10 + (d - b'0')) =
      rw (digit, going, shows) (next_digit n (d - b'0') (omega (arith, bound, small))) in
    let going' : (on_button d c).start_new_number ≡ false = rw digit refl in
    let rest = digits_follow ds (on_button d c) (n * 10 + (d - b'0')) are.2 next going' small in
    let same : (on_button d c).pending_op ≡ c.pending_op = rw digit refl in
    let same' : (on_button d c).pending_value ≡ c.pending_value = rw digit refl in
    (rest.0, rest.1, rest.2 ∙ same, rest.3 ∙ same')

digits_start :
    (d : ℕ) (ds : List ℕ) (c : Calc)
    → AreDigits (d ∷ ds)
    → c.start_new_number ≡ true
    → number_from 0 (d ∷ ds) < 2 ^ 31
    → let c' = press_all (d ∷ ds) c in
      (c'.display_value ≡ pos (number_from 0 (d ∷ ds)))
      × (c'.start_new_number ≡ false)
      × (c'.pending_op ≡ c.pending_op)
      × (c'.pending_value ≡ c.pending_value)
unfolding on_button
digits_start d ds c are fresh small =
    let digit : is_digit d ≡ true = ground (arith, are.0, are.1) in
    let next : (on_button d c).display_value ≡ pos (0 * 10 + (d - b'0')) =
      rw (digit, fresh) (ap pos (omega arith)) in
    let going : (on_button d c).start_new_number ≡ false = rw digit refl in
    let rest = digits_follow ds (on_button d c) (0 * 10 + (d - b'0')) are.2 next going small in
    let same : (on_button d c).pending_op ≡ c.pending_op = rw digit refl in
    let same' : (on_button d c).pending_value ≡ c.pending_value = rw digit refl in
    (rest.0, rest.1, rest.2 ∙ same, rest.3 ∙ same')

-- An operator behind a number.
op_pressed :
    (op : Op) (c : Calc)
    → c.start_new_number ≡ false
    → let c' = on_button (label_of op) c in
      (c'.pending_value ≡ settle c) × (c'.pending_op ≡ label_of op) × (c'.start_new_number ≡ true)
unfolding on_button
op_pressed plus c going = rw going (ground arith, refl, refl)
op_pressed minus c going = rw going (ground arith, refl, refl)
op_pressed times c going = rw going (ground arith, refl, refl)
op_pressed over c going = rw going (ground arith, refl, refl)

settle_op :
    (c : Calc) (a b : ℤ) (op : Op)
    → c.pending_value ≡ a
    → c.display_value ≡ b
    → c.pending_op ≡ label_of op
    → settle c ≡ apply_op a b (label_of op)
unfolding settle
settle_op c a b op ea eb eo =
    let live : (label_of op == 0) ≡ false = ground arith in rw (eo, live, ea, eb) refl

chain_from :
    (ts : List Term) (c : Calc)
    → AreTerms ts
    → StaysInt32 (settle c) ts
    → c.start_new_number ≡ false
    → ((press_all (typed ts) c).display_value ≡ value_from (settle c) ts)
      × ((press_all (typed ts) c).expr ≡ itoa_dec (value_from (settle c) ts))
unfolding on_button
chain_from [] c are stays going = (refl, refl)
chain_from (t ∷ ts) c are stays going =
    let c₁ = on_button (label_of t.op) c in
    let pressed = op_pressed t.op c going in
    let c₂ = press_all (t.first ∷ t.digits) c₁ in
    let entered = digits_start t.first t.digits c₁ are.0 pressed.2 are.1 in
    let value : settle c₂ ≡ calculate t.op (settle c) (term_value t) =
      settle_op c₂ (settle c) (pos (term_value t)) t.op (entered.3 ∙ pressed.0) entered.0
        (entered.2 ∙ pressed.1)
      ∙ apply_op-calculate t.op (settle c) (term_value t) stays.0 in
    let stays' : StaysInt32 (settle c₂) ts = rw value stays.1 in
    let rest = chain_from ts c₂ are.2 stays' entered.1 in
    let split = press_all-append (t.first ∷ t.digits) (typed ts) c₁ in
    (
      ap (λ s. s.display_value) split ∙ rest.0 ∙ ap (λ a. value_from a ts) value,
      ap (λ s. s.expr) split ∙ rest.1 ∙ ap (λ a. itoa_dec (value_from a ts)) value,
    )

-- Whatever was typed before: after `C`, a number, any number of operators with a number behind each,
-- and `=`, the calculator shows the value of the chain, computed from the left to the right, where a
-- division goes towards 0 and one by 0 leaves the number. The numbers typed and all results on the
-- way fit 32 bits.
pub press_all-value :
    (c : Calc) (first : ℕ) (digits : List ℕ) (ts : List Term)
    → AreDigits (first ∷ digits)
    → number_from 0 (first ∷ digits) < 2 ^ 31
    → AreTerms ts
    → StaysInt32 (pos (number_from 0 (first ∷ digits))) ts
    → let c' = press_all (b'C' ∷ first ∷ digits ++ typed ts) c in
      let value = value_from (pos (number_from 0 (first ∷ digits))) ts in
      (c'.display_value ≡ value) × (c'.expr ≡ itoa_dec value)
unfolding on_button settle
press_all-value c first digits ts are small terms stays =
    let entered = digits_start first digits initial are refl small in
    let c₁ = press_all (first ∷ digits) initial in
    let value : settle c₁ ≡ pos (number_from 0 (first ∷ digits)) = rw entered.2 entered.0 in
    let stays' : StaysInt32 (settle c₁) ts = rw value stays in
    let rest = chain_from ts c₁ terms stays' entered.1 in
    let split = press_all-append (first ∷ digits) (typed ts) initial in
    (
      ap (λ s. s.display_value) split ∙ rest.0 ∙ ap (λ a. value_from a ts) value,
      ap (λ s. s.expr) split ∙ rest.1 ∙ ap (λ a. itoa_dec (value_from a ts)) value,
    )
