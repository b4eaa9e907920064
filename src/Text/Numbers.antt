-- ===== src/Text/Numbers.antt =====
-- The numbers that `print_uint` prints are the numbers that `string_to_int` reads.
use mathlib.Core.List.{reverse, reverse_aux}
use native.Mathlib.Nat.{pow-suc}
use solstice_os.Base.{
  ℕ, zero, suc, ◌+◌, ◌-◌, ◌*◌, ◌/◌, ◌%◌, ◌^◌, ◌<◌, ◌≤◌, ◌≡◌, ◌≢◌, refl, ◌∙◌, ap, Bool, true, false,
  ◌&&◌, List, [], ◌∷◌, ltb, leb, ◌==◌, ==_iff, Option-cases, some, arith, all_below, pass_below,
  Bool-cases, inl, inr,
}
use solstice_os.Text.Strings.{
  is_number, string_to_int, all_digits, parse_decimal, parse_hex, hex_digit,
}
use solstice_os.Text.Format.{print_uint, collect, digit_char}

pub decimal_digit : (d : ℕ) → d < 10 → digit_char false d ≡ b'0' + d
decimal_digit d h = (==_iff _ _).0 (pass_below 10 (λ d. digit_char false d == b'0' + d) d table h)
  where
    table : all_below 10 (λ d. digit_char false d == b'0' + d) ≡ true
    table = unfold all_below in refl

hex_table : (upper : Bool) (d : ℕ) → d < 16 → hex_digit (digit_char upper d) ≡ d
hex_table true d h =
    (==_iff _ _).0 (pass_below 16 (λ d. hex_digit (digit_char true d) == d) d table h)
  where
    table : all_below 16 (λ d. hex_digit (digit_char true d) == d) ≡ true
    table = unfold all_below hex_digit in refl
hex_table false d h =
    (==_iff _ _).0 (pass_below 16 (λ d. hex_digit (digit_char false d) == d) d table h)
  where
    table : all_below 16 (λ d. hex_digit (digit_char false d) == d) ≡ true
    table = unfold all_below hex_digit in refl

space_is_no_digit : (c : ℕ) → hex_digit c < 16 → c ≢ b' '
unfolding hex_digit
space_is_no_digit c h e = ground arith

half_or_less : (base val : ℕ) → 2 ≤ base → val / base * 2 ≤ val
half_or_less base val two = grind arith

mod_below : (base val : ℕ) → 2 ≤ base → val % base < base
mod_below base val two = grind arith

div_mod : (base val : ℕ) → 2 ≤ base → val / base * base + val % base ≡ val
div_mod base val two = grind arith

-- The digits of a number below `2 ^ room`, the lowest first. They come back as the number when the
-- digits in front of them are read, most significant first, in base `base` by `parse`.
module _ (base : ℕ) (upper : Bool) (two : 2 ≤ base) (parse : List ℕ → ℕ → ℕ)
    (step : (ret d : ℕ) (s : List ℕ)
      → d < base
      → ret * base + d < 2 ^ 32
      → parse (digit_char upper d ∷ s) ret ≡ parse s (ret * base + d)) where
  collect-parse :
      (room val : ℕ) (s : List ℕ)
      → val < 2 ^ room
      → val < 2 ^ 32
      → (ds : List ℕ) × (collect room base upper val ≡ some ds)
        × (parse (reverse_aux ds s) 0 ≡ parse s val)
  unfolding collect
  collect-parse zero val s h w = ([], ground arith, ap (parse s) (omega arith))
  collect-parse (suc room) val s h w = elim (Bool-cases (val == 0)) [
    | inl none_left ↦ ([], rw none_left refl, ap (parse s) (ground arith))
    | inr some_left ↦
        let small = half_or_less base val two in
        let last = mod_below base val two in
        let whole = div_mod base val two in
        let (ds, e, back) =
          collect-parse room (val / base) (digit_char upper (val % base) ∷ s)
            (omega (arith, pow-suc 2 room, small)) (omega (arith, small)) in
        (
          digit_char upper (val % base) ∷ ds,
          rw (some_left, e) refl,
          back ∙ step (val / base) (val % base) s last (omega (arith, whole)) ∙ ap (parse s) whole,
        )
  ]

decimal_step :
    (ret d : ℕ) (s : List ℕ)
    → d < 10
    → ret * 10 + d < 2 ^ 32
    → parse_decimal (digit_char false d ∷ s) ret ≡ parse_decimal s (ret * 10 + d)
unfolding parse_decimal
decimal_step ret d s below w =
    let e = decimal_digit d below in
    let other : (digit_char false d == b' ') ≡ false = ground (arith, e) in
    let digit : (leb b'0' (digit_char false d) && leb (digit_char false d) b'9') ≡ true =
      ground (arith, e) in
    let next : (ret * 10 + (digit_char false d - b'0')) % 2 ^ 32 ≡ ret * 10 + d =
      omega (arith, e) in
    rw (other, digit, next) refl

hex_step :
    (upper : Bool) (ret d : ℕ) (s : List ℕ)
    → d < 16
    → ret * 16 + d < 2 ^ 32
    → parse_hex (digit_char upper d ∷ s) ret ≡ parse_hex s (ret * 16 + d)
unfolding parse_hex
hex_step upper ret d s below w =
    let e = hex_table upper d below in
    let other : (digit_char upper d == b' ') ≡ false =
      ground (arith, space_is_no_digit (digit_char upper d), e) in
    let digit : ltb (hex_digit (digit_char upper d)) 16 ≡ true = ground (arith, e) in
    let next : (ret * 16 + hex_digit (digit_char upper d)) % 2 ^ 32 ≡ ret * 16 + d =
      omega (arith, e) in
    rw (other, digit, next) refl

collect-all_digits :
    (room val : ℕ) (s ds : List ℕ)
    → all_digits s ≡ true
    → collect room 10 false val ≡ some ds
    → all_digits (reverse_aux ds s) ≡ true
unfolding collect
collect-all_digits zero val s ds h e = elim (Bool-cases (val == 0)) [
  | inl none_left ↦ (let same : [] ≡ ds = ground arith in rw (← same) h)
  | inr some_left ↦ absurd (ground arith)
]
collect-all_digits (suc room) val s ds h e = elim (Bool-cases (val == 0)) [
  | inl none_left ↦ (let same : [] ≡ ds = ground arith in rw (← same) h)
  | inr some_left ↦ elim (Option-cases (collect room 10 false (val / 10))) [
    | inl broke ↦ absurd (ground arith)
    | inr (ds', e') ↦
        let same : digit_char false (val % 10) ∷ ds' ≡ ds = ground arith in
        let digit = decimal_digit (val % 10) (omega arith) in
        rw (← same) (
          collect-all_digits room (val / 10) (digit_char false (val % 10) ∷ s) ds'
            (unfold all_digits in ground (arith, digit)) e')
  ]
]

decimal_only : (s : List ℕ) → all_digits s ≡ true → string_to_int s ≡ parse_decimal s 0
unfolding string_to_int all_digits
decimal_only [] h = refl
decimal_only (c ∷ []) h = ground arith
decimal_only (c ∷ d ∷ s) h = ground arith

some_digits : (s : List ℕ) → all_digits s ≡ true → parse_decimal s 0 ≢ 0 → is_number s ≡ true
unfolding is_number all_digits parse_decimal
some_digits [] h ne = absurd (ne refl)
some_digits (c ∷ s) h ne = ground arith

-- Every `uint32_t` is printed by `print_uint` in base 10 within the 64 bytes of its buffer, and what
-- it prints passes `is_number` and is read back as the same number by `string_to_int`.
pub string_to_int-print_uint :
    (n : ℕ)
    → n < 2 ^ 32
    → (s : List ℕ) × (print_uint n 10 false ≡ some s) × (is_number s ≡ true) × (string_to_int s ≡ n)
unfolding print_uint is_number
string_to_int-print_uint n w = elim (Bool-cases (n == 0)) [
  | inl null ↦ (
    b'0' ∷ [],
    rw null refl,
    (unfold all_digits in refl),
    (unfold string_to_int parse_decimal in ground arith),
  )
  | inr more ↦
      let (ds, e, back) =
        collect-parse 10 false (omega arith) parse_decimal decimal_step 64 n [] (omega arith) w in
      let value : parse_decimal (reverse ds) 0 ≡ n = back ∙ (unfold parse_decimal in refl) in
      let digits = collect-all_digits 64 n [] ds (unfold all_digits in refl) e in
      (
        reverse ds,
        rw (more, e) refl,
        some_digits (reverse ds) digits (ground (arith, value)),
        decimal_only (reverse ds) digits ∙ value,
      )
]

-- Every `uint32_t` is printed by `print_uint` in base 16, with digits of either case, within the 64
-- bytes of its buffer, and behind a prefix `0x` or `0X` `string_to_int` reads it back as the same number.
pub string_to_int-hex :
    (upper : Bool) (n : ℕ)
    → n < 2 ^ 32
    → (s : List ℕ) × (print_uint n 16 upper ≡ some s)
      × (string_to_int (b'0' ∷ b'x' ∷ s) ≡ n)
      × (string_to_int (b'0' ∷ b'X' ∷ s) ≡ n)
unfolding print_uint string_to_int
string_to_int-hex upper n w = elim (Bool-cases (n == 0)) [
  | inl null ↦ (b'0' ∷ [], rw null refl, ground arith, ground arith)
  | inr more ↦
      let (ds, e, back) =
        collect-parse 16 upper (omega arith) parse_hex (hex_step upper) 64 n [] (omega arith) w in
      let value : parse_hex (reverse_aux ds []) 0 ≡ n = back ∙ (unfold parse_hex in refl) in
      (reverse ds, rw (more, e) refl, value, value)
]
