-- ===== src/Ata/Bits.antt =====
-- The sector number in the drive's registers.
use Prim.Native.Nat.{bit_and, bit_or}
use solstice_os.Base.{ℕ, ◌+◌, ◌*◌, ◌/◌, ◌%◌, ◌^◌, ◌<◌, ◌≡◌, ap, ◌∙◌, arith}
use solstice_os.Base.Bits.{or_step, or-zero}
use solstice_os.Base.Masks.{and-low}

and_15 : (a : ℕ) → bit_and a 0x0F ≡ a % 16
and_15 a = omega (
  arith,
  and-low 4 (a / 16) (a % 16) (omega arith),
  ap (λ (t : ℕ). bit_and t 0x0F) (let e : a ≡ a / 16 * 16 + a % 16 = omega arith in e),
)

or_240 : (a : ℕ) → a < 16 → bit_or 0xF0 a ≡ 240 + a
or_240 a small =
    let gone : a / 2 / 2 / 2 / 2 ≡ 0 = omega arith in
    omega (
      arith,
      or_step 240 a,
      or_step 120 (a / 2),
      or_step 60 (a / 2 / 2),
      or_step 30 (a / 2 / 2 / 2),
      ap (λ (t : ℕ). bit_or 15 t) gone,
      or-zero 15,
    )

-- The register for the drive and the top four bits of the sector number.
pub top_register : (a : ℕ) → bit_or 0xF0 (bit_and a 0x0F) ≡ 240 + a % 16
top_register a = ap (λ (t : ℕ). bit_or 0xF0 t) (and_15 a) ∙ or_240 (a % 16) (omega arith)

-- The sector number that the registers 3 to 6 hold.
abbrev pub lba_of : (ℕ → ℕ) → ℕ
lba_of regs = regs 6 % 16 * 2 ^ 24 + regs 5 * 2 ^ 16 + regs 4 * 2 ^ 8 + regs 3

pub lba_bytes :
    (lba : ℕ)
    → (240 + lba / 2 ^ 24 % 16) % 16 * 2 ^ 24
        + lba / 2 ^ 16 % 2 ^ 8 * 2 ^ 16
        + lba / 2 ^ 8 % 2 ^ 8 * 2 ^ 8
        + lba % 2 ^ 8
      ≡ lba % 2 ^ 28
lba_bytes lba = omega arith
