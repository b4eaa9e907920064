-- ===== src/Base/Masks.antt =====
-- Masks: what `&` of C++ with a row of ones, with one bit and with all but one bit leaves.
use Prim.Native.Nat.{ℕ, zero, suc, ◌+◌, ◌-◌, ◌*◌, ◌/◌, ◌%◌, ◌^◌, ◌<◌, bit_and}
use mathlib.Core.Path.{sym, ◌≡◌, refl, ap, ◌∙◌}
use mathlib.Core.Logic.{inl, inr}
use native.Mathlib.Nat.{pow-suc, one-le-pow}
use native.Mathlib.Omega.{arith}
use solstice_os.Base.{true, ==_iff, pass_below, all_below, ◌==◌, if◌then◌else◌, Bool-cases}
use solstice_os.Base.Bits.{
  add-lt, and-zero, and_step, bit, bit-add_ne, bit-add_self, bit-le-one, pow_mono,
}

pub and-mask : (n a : ℕ) → a < 2 ^ n → bit_and a (2 ^ n - 1) ≡ a
and-mask zero a small = omega (arith, and-zero a)
and-mask (suc n) a small =
    let half : (2 ^ suc n - 1) / 2 ≡ 2 ^ n - 1 = omega (arith, pow-suc 2 n, one-le-pow n 2) in
    let odd : (2 ^ suc n - 1) % 2 ≡ 1 = omega (arith, pow-suc 2 n, one-le-pow n 2) in
    and_step a (2 ^ suc n - 1)
    ∙ rw (half, odd, and-mask n (a / 2) (omega (arith, pow-suc 2 n))) (omega arith)

-- `a & ~(1 << k)` of an `n`-bit word takes the weight of the bit away if it is there.
pub and-clear :
    (n k a : ℕ) → k < n → a < 2 ^ n → bit_and a (2 ^ n - 1 - 2 ^ k) + bit k a * 2 ^ k ≡ a
and-clear zero k a h small = absurd (omega arith)
and-clear (suc n) zero a h small =
    let half : (2 ^ suc n - 1 - 1) / 2 ≡ 2 ^ n - 1 = omega (arith, pow-suc 2 n, one-le-pow n 2) in
    let even : (2 ^ suc n - 1 - 1) % 2 ≡ 0 = omega (arith, pow-suc 2 n, one-le-pow n 2) in
    rw (and_step a (2 ^ suc n - 1 - 1), half, even, and-mask n (a / 2) (omega (arith, pow-suc 2 n)))
      (omega arith)
and-clear (suc n) (suc k) a h small =
    let less = pow_mono (suc k) n (omega arith) in
    let half : (2 ^ suc n - 1 - 2 ^ suc k) / 2 ≡ 2 ^ n - 1 - 2 ^ k =
      omega (arith, pow-suc 2 n, pow-suc 2 k, one-le-pow k 2, less) in
    let odd : (2 ^ suc n - 1 - 2 ^ suc k) % 2 ≡ 1 =
      omega (arith, pow-suc 2 n, pow-suc 2 k, one-le-pow k 2, less) in
    rw (and_step a (2 ^ suc n - 1 - 2 ^ suc k), half, odd)
      (omega (
        arith,
        pow-suc 2 k,
        and-clear n k (a / 2) (omega arith) (omega (arith, pow-suc 2 n)),
        ap (λ (t : ℕ). bit k (a / 2) * t) (pow-suc 2 k),
      ))

-- Clearing takes away what setting a clear bit added.
pub clear-add :
    (n k a : ℕ) → k < n → a < 2 ^ n → bit k a ≡ 0 → bit_and (a + 2 ^ k) (2 ^ n - 1 - 2 ^ k) ≡ a
clear-add n k a h small e = omega (
  arith,
  and-clear n k (a + 2 ^ k) h (add-lt n k a h small e),
  bit-add_self k a e,
  ap (λ (t : ℕ). t * 2 ^ k) (bit-add_self k a e),
)

-- `a & (1 << k)` is 0 exactly when the bit is clear.
pub and-two_pow : (k a : ℕ) → bit_and a (2 ^ k) ≡ bit k a * 2 ^ k
and-two_pow zero a = omega (arith, and_step a 1, and-zero (a / 2))
and-two_pow (suc k) a =
    let half : 2 ^ suc k / 2 ≡ 2 ^ k = omega (arith, pow-suc 2 k) in
    let even : 2 ^ suc k % 2 ≡ 0 = omega (arith, pow-suc 2 k) in
    and_step a (2 ^ suc k)
    ∙ rw (half, even, and-two_pow k (a / 2))
        (omega (arith, ap (λ (t : ℕ). bit k (a / 2) * t) (pow-suc 2 k)))

pub bit-ones : (k : ℕ) → k < 8 → bit k 255 ≡ 1
bit-ones k h = (==_iff _ _).0 (pass_below 8 (λ k. bit k 255 == 1) k table h)
  where
    table : all_below 8 (λ k. bit k 255 == 1) ≡ true
    table = unfold all_below in refl

pub bit-add_flip : (k a : ℕ) → bit k (a + 2 ^ k) + bit k a ≡ 1
bit-add_flip zero a = omega arith
bit-add_flip (suc k) a =
    let same : (a + 2 ^ suc k) / 2 ≡ a / 2 + 2 ^ k = omega (arith, pow-suc 2 k) in
    rw same (bit-add_flip k (a / 2))

-- Clearing bit `k` of an `n`-bit word leaves a word with the bit clear and the others as before.
pub bit-clear :
    (n k a j : ℕ)
    → k < n
    → a < 2 ^ n
    → bit j (bit_and a (2 ^ n - 1 - 2 ^ k)) ≡ (if j == k then 0 else bit j a)
bit-clear n k a j h small =
    let a' = bit_and a (2 ^ n - 1 - 2 ^ k) in
    let cleared : a' + bit k a * 2 ^ k ≡ a = and-clear n k a h small in
    let at_k = bit-le-one k a in
    elim (Bool-cases (bit k a == 0)) [
      | inl clear ↦
          let e : a' ≡ a = ground (arith, cleared) in
          ground (arith, ap (λ (t : ℕ). bit j t) e, ap (λ (t : ℕ). bit k t) e)
      | inr set ↦
          let one : bit k a ≡ 1 = ground arith in
          let e : a' + 2 ^ k ≡ a = omega (arith, cleared, ap (λ (t : ℕ). t * 2 ^ k) one) in
          let flip = bit-add_flip k a' in
          let up = ap (λ (t : ℕ). bit k t) e in
          let low : bit k a' ≡ 0 = omega (arith, flip, up, one) in
          elim (Bool-cases (j == k)) [
            | inl same ↦
                ground (arith, low, ap (λ (t : ℕ). bit t a') (let q : j ≡ k = ground arith in q))
            | inr other ↦
                rw other (sym (bit-add_ne j k a' (ground arith) low) ∙ ap (λ (t : ℕ). bit j t) e)
          ]
    ]

-- `&` with a row of `n` ones leaves the low `n` bits.
pub and-low : (n q r : ℕ) → r < 2 ^ n → bit_and (q * 2 ^ n + r) (2 ^ n - 1) ≡ r
and-low zero q r small = omega (arith, and-zero (q * 1 + r))
and-low (suc n) q r small =
    let two = pow-suc 2 n in
    let many : q * 2 ^ suc n ≡ q * (2 ^ n * 2) = ap (λ (t : ℕ). q * t) two in
    let half : (2 ^ suc n - 1) / 2 ≡ 2 ^ n - 1 = omega (arith, two, one-le-pow n 2) in
    let odd : (2 ^ suc n - 1) % 2 ≡ 1 = omega (arith, two, one-le-pow n 2) in
    let half_a : (q * 2 ^ suc n + r) / 2 ≡ q * 2 ^ n + r / 2 = omega (arith, many) in
    let odd_a : (q * 2 ^ suc n + r) % 2 ≡ r % 2 = omega (arith, many) in
    and_step (q * 2 ^ suc n + r) (2 ^ suc n - 1)
    ∙ rw (half, odd, half_a, odd_a, and-low n q (r / 2) (omega (arith, two))) (omega arith)
