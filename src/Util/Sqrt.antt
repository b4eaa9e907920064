-- ===== src/Util/Sqrt.antt =====
-- `int_sqrt` of src/kernel/utils/utils.cpp. Its argument and its variables are `int`s that are
-- never negative past the first test.
use native.Mathlib.Nat.{pow-suc, one-le-pow}
use solstice_os.Base.{
  refl, false, false, inl, inr, ap, ◌∙◌, ◌*◌, inl, Bool-cases, ◌*◌, arith, ◌≡◌, ◌≤◌, ◌<◌, sym, ℕ,
  zero, suc, ◌+◌, ◌-◌, ◌/◌, ◌^◌, ltb, leb, ◌==◌, if◌then◌else◌,
}
use solstice_os.Base.Int.{ℤ, pos, negsuc}

-- `while (bit > value) bit >>= 2`, with `n` rounds left at `bit = 4 ^ n`. The shift of 1 gives 0.
first_bit : (n value bit : ℕ) → ℕ
first_bit zero value bit = if ltb value bit then bit / 4 else bit
first_bit (suc n) value bit =
    let rest = first_bit n value (bit / 4) in if ltb value bit then rest else bit

-- `while (bit != 0)`, with `n` rounds left.
root_loop : (n value res bit : ℕ) → ℕ
root_loop zero value res bit = res
root_loop (suc n) value res bit =
    let taken = root_loop n (value - (res + bit)) (res / 2 + bit) (bit / 4) in
    let skipped = root_loop n value (res / 2) (bit / 4) in
    if bit == 0 then res else if leb (res + bit) value then taken else skipped

-- `bit` starts at `1 << 30`, which is 4 ^ 15.
pub int_sqrt : ℤ → ℕ
int_sqrt (negsuc n) = 0
int_sqrt (pos value) = if value == 0 then 0 else root_loop 16 value 0 (first_bit 15 value (2 ^ 30))

first_bit-pow :
    (n value : ℕ)
    → 0 < value
    → value < 4 ^ suc n
    → (k : ℕ) × (first_bit n value (4 ^ n) ≡ 4 ^ k) × (k ≤ n) × (value < 4 ^ suc k)
unfolding first_bit
first_bit-pow zero value pos_value small = (0, ground arith, omega arith, small)
first_bit-pow (suc n) value pos_value small = elim (Bool-cases (ltb value (4 ^ suc n))) [
  | inl less ↦
      let (k, e, le, fits) = first_bit-pow n value pos_value (ground arith) in
      let quarter : 4 ^ suc n / 4 ≡ 4 ^ n = omega (arith, pow-suc 4 n) in
      (k, rw (less, quarter) e, omega (arith, le), fits)
  | inr more ↦ (suc n, rw more refl, omega arith, small)
]

pow4 : (k : ℕ) → 4 ^ suc k ≡ 4 * 4 ^ k
pow4 k = omega (arith, pow-suc 4 k)

-- The weight that is tried when `m` binary digits of the root are left.
abbrev bit_of : ℕ → ℕ
bit_of zero = 0
bit_of (suc k) = 4 ^ k

quarter_bit : (k : ℕ) → 4 ^ k / 4 ≡ bit_of k
quarter_bit zero = omega arith
quarter_bit (suc k) = omega (arith, pow-suc 4 k)

-- With `m` digits left, `q` is the root's upper part, `res` is `q * 4 ^ m`, and `value` is what is
-- left of `whole`.
root_loop_lem :
    (m n q value whole res : ℕ)
    → m ≤ n
    → res ≡ q * 4 ^ m
    → value + q * q * 4 ^ m ≡ whole
    → whole < (q + 1) * (q + 1) * 4 ^ m
    → let r = root_loop n value res (bit_of m) in (r * r ≤ whole) × (whole < (r + 1) * (r + 1))
unfolding root_loop
root_loop_lem zero zero q value whole res le e left above = rw e (omega arith, omega arith)
root_loop_lem zero (suc n) q value whole res le e left above = rw e (omega arith, omega arith)
root_loop_lem (suc k) zero q value whole res le e left above = absurd (omega arith)
root_loop_lem (suc k) (suc n) q value whole res le e left above =
    let x = 4 ^ k in
    let four = pow-suc 4 k in
    let some_bit : (4 ^ k == 0) ≡ false = ground (arith, one-le-pow k 4) in
    let res4 : res ≡ q * (4 * x) = e ∙ ap (λ (t : ℕ). q * t) (pow4 k) in
    let left4 : value + q * q * (4 * x) ≡ whole =
      ap (λ (t : ℕ). value + q * q * t) (sym (pow4 k)) ∙ left in
    let above4 : whole < (q + 1) * (q + 1) * (4 * x) = rw (pow4 k) at above in
    elim (Bool-cases (leb (res + 4 ^ k) value)) [
      | inl fits ↦
          let more : res + x ≤ value = ground arith in
          rw (some_bit, fits, quarter_bit k)
            (root_loop_lem k n (2 * q + 1) (value - (res + x)) whole (res / 2 + x) (omega arith)
              (omega arith) (omega arith) (omega arith))
      | inr misses ↦
          let less : value < res + x = ground arith in
          rw (some_bit, misses, quarter_bit k)
            (root_loop_lem k n (2 * q) value whole (res / 2) (omega arith) (omega arith)
              (omega arith) (omega arith))
    ]

-- For an `int` value above 0 the result is the integer square root: its square is at most the value,
-- and the square of the next number is larger. For the others it is 0.
pub int_sqrt_lem :
    (value : ℕ)
    → value < 2 ^ 31
    → (int_sqrt (pos value) * int_sqrt (pos value) ≤ value)
      × (value < (int_sqrt (pos value) + 1) * (int_sqrt (pos value) + 1))
      × (int_sqrt (negsuc value) ≡ 0)
unfolding int_sqrt
int_sqrt_lem value small = elim (Bool-cases (value == 0)) [
  | inl null ↦ let z : value ≡ 0 = ground arith in rw null (omega arith, omega arith, refl)
  | inr some_value ↦
      let (k, e, le, fits) = first_bit-pow 15 value (ground arith) (omega arith) in
      let (low, high) =
        root_loop_lem (suc k) 16 0 value value 0 (omega arith) (omega arith) (omega arith)
          (omega (arith, fits)) in
      rw (some_value, e) (low, high, refl)
]
