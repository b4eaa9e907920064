-- ===== src/Base/Bits.antt =====
-- The bits of a machine word, and what `|`, `&` and `~` of C++ do to one of them.
use Prim.Native.Nat.{
  ℕ, zero, suc, ◌+◌, ◌-◌, ◌*◌, ◌/◌, ◌%◌, ◌^◌, ◌≤◌, ◌<◌, min, max, bit_and, bit_or, digits,
  bit_and-bitwise, bit_or-bitwise,
}
use mathlib.Core.Path.{◌≡◌, refl, ap}
use mathlib.Core.Logic.{◌≢◌, inl, inr}
use mathlib.Core.Option.{Option, none, some}
use native.Mathlib.Nat.{pow-suc, one-le-pow}
use native.Mathlib.Omega.{arith}
use solstice_os.Base.{◌==◌, if◌then◌else◌, Bool-cases}

pub pow_mono : (m n : ℕ) → m ≤ n → 2 ^ m ≤ 2 ^ n
pow_mono zero n h = omega (arith, one-le-pow n 2)
pow_mono (suc m) zero h = absurd (omega arith)
pow_mono (suc m) (suc n) h = omega (arith, pow-suc 2 m, pow-suc 2 n, pow_mono m n (omega arith))

abbrev map_suc : Option ℕ → Option ℕ
map_suc none = none
map_suc (some n) = some (suc n)

-- Bit `k` of a word, 0 or 1.
abbrev pub bit : ℕ → ℕ → ℕ
bit zero a = a % 2
bit (suc k) a = bit k (a / 2)

module _ (z : ℕ → ℕ) (f : ℕ → ℕ → ℕ) where
  digits_enough : (n m a b : ℕ) → a ≤ n → a ≤ m → digits z f n a b ≡ digits z f m a b
  digits_enough zero zero a b p q = refl
  digits_enough zero (suc m) zero b p q = refl
  digits_enough zero (suc m) (suc a) b p q = absurd (omega arith)
  digits_enough (suc n) zero zero b p q = refl
  digits_enough (suc n) zero (suc a) b p q = absurd (omega arith)
  digits_enough (suc n) (suc m) zero b p q = refl
  digits_enough (suc n) (suc m) (suc a) b p q =
      ap (λ (t : ℕ). t * 2 + f (suc a % 2) (b % 2))
        (digits_enough n m (suc a / 2) (b / 2) (omega arith) (omega arith))

pub or_step : (a b : ℕ) → bit_or a b ≡ bit_or (a / 2) (b / 2) * 2 + max (a % 2) (b % 2)
or_step zero b = omega (arith, bit_or-bitwise 0 b, bit_or-bitwise 0 (b / 2))
or_step (suc a) b = omega (
  arith,
  bit_or-bitwise (suc a) b,
  bit_or-bitwise (suc a / 2) (b / 2),
  digits_enough (λ y. y) max a (suc a / 2) (suc a / 2) (b / 2) (omega arith) (omega arith),
)

pub and_step : (a b : ℕ) → bit_and a b ≡ bit_and (a / 2) (b / 2) * 2 + min (a % 2) (b % 2)
and_step zero b = omega (arith, bit_and-bitwise 0 b, bit_and-bitwise 0 (b / 2))
and_step (suc a) b = omega (
  arith,
  bit_and-bitwise (suc a) b,
  bit_and-bitwise (suc a / 2) (b / 2),
  digits_enough (λ y. 0) min a (suc a / 2) (suc a / 2) (b / 2) (omega arith) (omega arith),
)

or_zero_upto : (n a : ℕ) → a ≤ n → bit_or a 0 ≡ a
or_zero_upto n zero h = omega (arith, bit_or-bitwise 0 0)
or_zero_upto zero (suc a) h = absurd (omega arith)
or_zero_upto (suc n) (suc a) h =
    omega (arith, or_step (suc a) 0, or_zero_upto n (suc a / 2) (omega arith))

pub or-zero : (a : ℕ) → bit_or a 0 ≡ a
or-zero a = or_zero_upto a a (omega arith)

and_zero_upto : (n a : ℕ) → a ≤ n → bit_and a 0 ≡ 0
and_zero_upto n zero h = omega (arith, bit_and-bitwise 0 0)
and_zero_upto zero (suc a) h = absurd (omega arith)
and_zero_upto (suc n) (suc a) h =
    omega (arith, and_step (suc a) 0, and_zero_upto n (suc a / 2) (omega arith))

pub and-zero : (a : ℕ) → bit_and a 0 ≡ 0
and-zero a = and_zero_upto a a (omega arith)

pub bit-le-one : (k a : ℕ) → bit k a ≤ 1
bit-le-one zero a = omega arith
bit-le-one (suc k) a = bit-le-one k (a / 2)

-- `a | (1 << k)` adds the bit if it is not there.
pub or-two_pow : (k a : ℕ) → bit_or a (2 ^ k) + bit k a * 2 ^ k ≡ a + 2 ^ k
or-two_pow zero a = omega (arith, or_step a 1, or-zero (a / 2))
or-two_pow (suc k) a = omega (
  arith,
  or_step a (2 ^ suc k),
  pow-suc 2 k,
  or-two_pow k (a / 2),
  ap (λ (t : ℕ). bit k (a / 2) * t) (pow-suc 2 k),
  ap (λ (t : ℕ). bit_or (a / 2) t) (half_pow k),
)
  where
    half_pow : (k : ℕ) → 2 ^ suc k / 2 ≡ 2 ^ k
    half_pow k = omega (arith, pow-suc 2 k)

-- How many of the low `n` bits are set.
abbrev pub ones : ℕ → ℕ → ℕ
ones zero a = 0
ones (suc n) a = a % 2 + ones n (a / 2)

-- The position of the lowest set bit of an `n`-bit word, `none` for 0.
unfoldable pub lowest_set : ℕ → ℕ → Option ℕ
lowest_set zero w = none
lowest_set (suc n) w =
    let rest = map_suc (lowest_set n (w / 2)) in if w % 2 == 1 then some 0 else rest

pub ones-zero : (n : ℕ) → ones n 0 ≡ 0
ones-zero zero = refl
ones-zero (suc n) = omega (arith, ones-zero n)

pub ones-le : (n a : ℕ) → ones n a ≤ n
ones-le zero a = omega arith
ones-le (suc n) a = omega (arith, ones-le n (a / 2))

-- Where fewer than `n` of the low `n` bits are set, the lowest set bit of the complement is a
-- clear bit of the word below `n`.
pub lowest_set-complement :
    (m n a : ℕ)
    → n ≤ m
    → a < 2 ^ n
    → ones n a < n
    → (k : ℕ) × (lowest_set m (2 ^ m - 1 - a) ≡ some k) × (k < n) × (bit k a ≡ 0)
unfolding lowest_set
lowest_set-complement m zero a le small few = absurd (omega arith)
lowest_set-complement zero (suc n) a le small few = absurd (omega arith)
lowest_set-complement (suc m) (suc n) a le small few = elim (Bool-cases (a % 2 == 0)) [
  | inl even ↦ (
    0,
    ground (arith, pow-suc 2 m, pow-suc 2 n, one-le-pow m 2, fits),
    ground arith,
    ground arith,
  )
  | inr odd ↦
      let half =
        lowest_set-complement m n (a / 2) (omega arith) (omega (arith, pow-suc 2 n))
          (ground arith) in
      let same : (2 ^ suc m - 1 - a) / 2 ≡ 2 ^ m - 1 - a / 2 = omega (arith, pow-suc 2 m) in
      (suc (half.0), ground (arith, pow-suc 2 m, same, fits, half.1), omega (arith, half.2), half.3)
]
  where
    fits : a < 2 ^ suc m
    fits = omega (arith, pow_mono (suc n) (suc m) le)

-- Setting a clear bit below `n` adds its weight, adds one to the count, and keeps `n` bits.
pub ones-add : (n k a : ℕ) → k < n → bit k a ≡ 0 → ones n (a + 2 ^ k) ≡ ones n a + 1
ones-add zero k a h e = absurd (omega arith)
ones-add (suc n) zero a h e = let same : (a + 1) / 2 ≡ a / 2 = omega arith in rw same (omega arith)
ones-add (suc n) (suc k) a h e =
    let same : (a + 2 ^ suc k) / 2 ≡ a / 2 + 2 ^ k = omega (arith, pow-suc 2 k) in
    rw same (omega (arith, pow-suc 2 k, ones-add n k (a / 2) (omega arith) e))

pub add-lt : (n k a : ℕ) → k < n → a < 2 ^ n → bit k a ≡ 0 → a + 2 ^ k < 2 ^ n
add-lt zero k a h small e = absurd (omega arith)
add-lt (suc n) zero a h small e = omega (arith, pow-suc 2 n)
add-lt (suc n) (suc k) a h small e = omega (
  arith,
  pow-suc 2 n,
  pow-suc 2 k,
  add-lt n k (a / 2) (omega arith) (omega (arith, pow-suc 2 n)) e,
)

pub bit-add_self : (k a : ℕ) → bit k a ≡ 0 → bit k (a + 2 ^ k) ≡ 1
bit-add_self zero a e = omega arith
bit-add_self (suc k) a e =
    let same : (a + 2 ^ suc k) / 2 ≡ a / 2 + 2 ^ k = omega (arith, pow-suc 2 k) in
    rw same (bit-add_self k (a / 2) e)

pub bit-add_ne : (j k a : ℕ) → j ≢ k → bit k a ≡ 0 → bit j (a + 2 ^ k) ≡ bit j a
bit-add_ne zero zero a ne e = absurd (ne refl)
bit-add_ne zero (suc k) a ne e = omega (arith, pow-suc 2 k)
bit-add_ne (suc j) zero a ne e = let same : (a + 1) / 2 ≡ a / 2 = omega arith in rw same refl
bit-add_ne (suc j) (suc k) a ne e =
    let same : (a + 2 ^ suc k) / 2 ≡ a / 2 + 2 ^ k = omega (arith, pow-suc 2 k) in
    rw same (bit-add_ne j k (a / 2) (λ q. ne (ap suc q)) e)
