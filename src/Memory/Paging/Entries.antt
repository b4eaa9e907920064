-- ===== src/Memory/Paging/Entries.antt =====
-- The parts of a page table entry: the present bit, the large-page bit and the address.
use Prim.Native.Nat.{bit_and, bit_or}
use solstice_os.Base.{ℕ, ◌+◌, ◌-◌, ◌*◌, ◌/◌, ◌%◌, ◌^◌, ◌<◌, ◌≡◌, ap, ◌∙◌, arith}
use solstice_os.Base.Bits.{and_step, or_step, or-zero}
use solstice_os.Base.Masks.{and-low, and-two_pow}

-- `&` with a row of `n` ones is the remainder.
pub and-ones_9 : (a : ℕ) → bit_and a 0x1FF ≡ a % 512
and-ones_9 a = omega (
  arith,
  and-low 9 (a / 512) (a % 512) (omega arith),
  ap (λ (t : ℕ). bit_and t 0x1FF) (let e : a ≡ a / 512 * 512 + a % 512 = omega arith in e),
)

and_even : (a b : ℕ) → bit_and a (2 * b) ≡ 2 * bit_and (a / 2) b
and_even a b =
    let half : 2 * b / 2 ≡ b = omega arith in
    omega (arith, and_step a (2 * b), ap (λ (t : ℕ). bit_and (a / 2) t) half)

and_ones_36 : (a : ℕ) → bit_and a (2 ^ 36 - 1) ≡ a % 2 ^ 36
and_ones_36 a = omega (
  arith,
  and-low 36 (a / 2 ^ 36) (a % 2 ^ 36) (omega arith),
  ap (λ (t : ℕ). bit_and t (2 ^ 36 - 1))
      (let e : a ≡ a / 2 ^ 36 * 2 ^ 36 + a % 2 ^ 36 = omega arith in e),
)

-- Three zero bits below a mask.
and_8 : (a b : ℕ) → bit_and a (8 * b) ≡ 8 * bit_and (a / 8) b
and_8 a b =
    let split : 8 * b ≡ 2 * (2 * (2 * b)) = omega arith in
    let down : a / 2 / 2 / 2 ≡ a / 8 = omega arith in
    omega (
      arith,
      ap (λ (t : ℕ). bit_and a t) split,
      and_even a (2 * (2 * b)),
      and_even (a / 2) (2 * b),
      and_even (a / 2 / 2) b,
      ap (λ (t : ℕ). bit_and t b) down,
    )

-- The address that an entry holds: 36 bits above the twelve of the flags.
pub and-address_mask : (a : ℕ) → bit_and a 0x0000FFFFFFFFF000 ≡ a % 2 ^ 48 / 4096 * 4096
and-address_mask a =
    let m = 2 ^ 36 - 1 in
    omega (
      arith,
      and_8 a (8 * (8 * (8 * m))),
      and_8 (a / 8) (8 * (8 * m)),
      and_8 (a / 8 / 8) (8 * m),
      and_8 (a / 8 / 8 / 8) m,
      and_ones_36 (a / 8 / 8 / 8 / 8),
    )

pub and-one : (a : ℕ) → bit_and a 1 ≡ a % 2
and-one a = omega (arith, and-two_pow 0 a)

-- `|` of the address of a page with the flags for present and writable.
pub or-flags : (a : ℕ) → a % 4 ≡ 0 → bit_or a 3 ≡ a + 3
or-flags a low = omega (arith, or_step a 3, or_step (a / 2) 1, or-zero (a / 2 / 2))

-- What the flags leave of a page's address: it is present, maps no large page, and its address is
-- the page.
pub flagged :
    (a : ℕ)
    → a % 4096 ≡ 0
    → a < 2 ^ 48
    → (bit_and (bit_or a 3) 1 ≡ 1)
      × (bit_and (bit_or a 3) (2 ^ 7) ≡ 0)
      × (bit_and (bit_or a 3) 0x0000FFFFFFFFF000 ≡ a)
flagged a low small = rw (or-flags a (omega arith)) (
  omega (arith, and-one (a + 3)),
  and-two_pow 7 (a + 3) ∙ omega arith,
  omega (arith, and-address_mask (a + 3)),
)
