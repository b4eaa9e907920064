-- ===== src/Apps/Calculator/Display.antt =====
-- The calculator's text: it stays within its buffer, and shows numbers as `printf` does.
use native.Mathlib.Nat.{pow-suc}
use solstice_os.Text.Numbers.{decimal_digit}
use mathlib.Core.List.{reverse_aux}
use solstice_os.Base.{
  ℕ, zero, suc, ◌+◌, ◌-◌, ◌/◌, ◌%◌, ◌^◌, ◌<◌, ◌≤◌, ◌≡◌, refl, ap, ◌∙◌, true, false, if◌then◌else◌,
  leb, ◌==◌, List, [], ◌∷◌, length, length-append, length-set, arith, some, Bool-cases, inl, inr,
}
use solstice_os.Base.Int.{ℤ, pos, negsuc, pos_part, neg_part, ltb_ℤ}
use solstice_os.Text.Format.{digit_char, collect, print_uint, print_int}
use solstice_os.Apps.Calculator.{
  settle, Calc, expr_append, dec_digits, itoa_dec, swap_last, on_button,
}

dec_digits-le :
    (room uval : ℕ) (out : List ℕ) → length (dec_digits room uval out) ≤ room + length out
unfolding dec_digits
dec_digits-le zero uval out = omega arith
dec_digits-le (suc room) uval out =
    ground (arith, dec_digits-le room (uval / 10) ((b'0' + uval % 10) ∷ out))

itoa_dec-le : (val : ℤ) → length (itoa_dec val) ≤ 13
unfolding itoa_dec
itoa_dec-le val = ground (arith, dec_digits-le 12 ((pos_part val + neg_part val) % 2 ^ 32) [])

append-le : (c : ℕ) (expr : List ℕ) → length expr ≤ 31 → length (expr_append c expr) ≤ 31
unfolding expr_append
append-le c expr h = ground (arith, length-append expr (c ∷ []))

swap-le : (c : ℕ) (expr : List ℕ) → length (swap_last c expr) ≡ length expr
unfolding swap_last
swap-le c expr = ground (arith, length-set expr (length expr - 1) c)

-- Whatever button is pressed, the text leaves room for its terminator in the 32 bytes of `expr_buf`.
pub on_button-le :
    (label : ℕ) (c : Calc) → length c.expr ≤ 31 → length (on_button label c).expr ≤ 31
unfolding on_button
on_button-le label c h =
    let shown = if c.just_evaluated then [] else c.expr in
    let fits : length shown ≤ 31 = ground arith in
    ground (
      arith,
      append-le label shown fits,
      append-le label c.expr h,
      swap-le label c.expr,
      itoa_dec-le (settle c),
    )

collect_zero : (room : ℕ) → collect room 10 false 0 ≡ some []
unfolding collect
collect_zero zero = refl
collect_zero (suc room) = refl

dec_digits_zero : (room : ℕ) (out : List ℕ) → dec_digits room 0 out ≡ out
unfolding dec_digits
dec_digits_zero zero out = refl
dec_digits_zero (suc room) out = refl

-- The two loops over the digits of a number with at most `k` of them.
same_digits :
    (k n room room' : ℕ) (out : List ℕ)
    → n < 10 ^ k
    → k ≤ room
    → k ≤ room'
    → (ds : List ℕ) × (collect room 10 false n ≡ some ds)
      × (dec_digits room' n out ≡ reverse_aux ds out)
unfolding collect dec_digits
same_digits zero n room room' out small r r' =
    let null : n ≡ 0 = omega (arith, small) in
    (
      [],
      ap (λ m. collect room 10 false m) null ∙ collect_zero room,
      ap (λ m. dec_digits room' m out) null ∙ dec_digits_zero room' out,
    )
same_digits (suc k) n zero room' out small r r' = absurd (omega arith)
same_digits (suc k) n (suc room) zero out small r r' = absurd (omega arith)
same_digits (suc k) n (suc room) (suc room') out small r r' = elim (Bool-cases (n == 0)) [
  | inl null ↦ ([], rw null refl, rw null refl)
  | inr more ↦
      let fewer : n / 10 < 10 ^ k = omega (arith, pow-suc 10 k) in
      let (ds, e, e') =
        same_digits k (n / 10) room room' ((b'0' + n % 10) ∷ out) fewer (omega arith)
          (omega arith) in
      let d = decimal_digit (n % 10) (omega arith) in
      (digit_char false (n % 10) ∷ ds, rw (more, e) refl, rw (more, d) e')
]

itoa-print_uint :
    (n : ℕ)
    → n < 2 ^ 32
    → print_uint n 10 false ≡ some (if n == 0 then b'0' ∷ [] else dec_digits 12 n [])
unfolding print_uint
itoa-print_uint n small = elim (Bool-cases (n == 0)) [
  | inl null ↦ rw null refl
  | inr more ↦
      let (ds, e, e') = same_digits 10 n 64 12 [] (omega arith) (omega arith) (omega arith) in
      rw (more, e, e') refl
]

-- The 64-bit pattern of a number.
abbrev pub pattern_of : ℤ → ℕ
pattern_of (pos n) = n
pattern_of (negsuc n) = 2 ^ 64 - suc n

-- The calculator's `itoa_dec` gives the same text as `print_int` of `printf`, for every `int32_t`.
pub itoa_dec-print_int :
    (val : ℤ)
    → pos_part val < 2 ^ 31
    → neg_part val ≤ 2 ^ 31
    → print_int (pattern_of val) ≡ some (itoa_dec val)
unfolding itoa_dec print_int
itoa_dec-print_int (pos n) above below =
    let plus : leb (2 ^ 63) n ≡ false = ground arith in
    let whole : (n + 0) % 2 ^ 32 ≡ n = omega arith in
    let unsigned : ltb_ℤ (pos n) (pos 0) ≡ false = ground arith in
    rw (plus, whole, unsigned) (itoa-print_uint n (omega arith))
itoa_dec-print_int (negsuc n) above below =
    let minus : leb (2 ^ 63) (2 ^ 64 - suc n) ≡ true = ground arith in
    let whole : (0 + suc n) % 2 ^ 32 ≡ suc n = omega arith in
    let back : 2 ^ 64 - (2 ^ 64 - suc n) ≡ suc n = omega arith in
    let signed : ltb_ℤ (negsuc n) (pos 0) ≡ true = ground arith in
    rw (minus, whole, back, signed, itoa-print_uint (suc n) (omega arith)) refl
