-- ===== src/Ext2/Bitmap/Bytes.antt =====
-- What the scans of a bitmap find.
use Prim.Native.Nat.{bit_and}
use native.Mathlib.Nat.{one-le-pow}
use native.Mathlib.Decide.{dec_lt}
use solstice_os.Base.{
  subst, ℕ, zero, suc, ◌+◌, ◌*◌, ◌/◌, ◌%◌, ◌^◌, ◌<◌, ◌≤◌, ◌≡◌, inl, inr, true, false, ◌==◌, Option,
  none, some, arith, Bool-cases, Option-cases,
}
use solstice_os.Base.Bits.{bit, bit-le-one}
use solstice_os.Base.Masks.{and-two_pow, bit-ones}
use solstice_os.Ext2.Disk.{Buffer}
use solstice_os.Ext2.Bitmap.{clear_bit, scan}

test_clear : (k a : ℕ) → (bit_and a (2 ^ k) == 0) ≡ true → bit k a ≡ 0
test_clear k a h = grind (arith, and-two_pow k a, one-le-pow k 2, bit-le-one k a)

test_set : (k a : ℕ) → (bit_and a (2 ^ k) == 0) ≡ false → bit k a ≡ 1
test_set k a h = grind (arith, and-two_pow k a, one-le-pow k 2, bit-le-one k a)

-- `clear_bit` finds the first clear bit from `lo` on, among `left` bits.
abbrev pub FirstClear : (lo left byte : ℕ) → Option ℕ → Type 0
FirstClear lo left byte none = (k : ℕ) → lo ≤ k → k < lo + left → bit k byte ≡ 1
FirstClear lo left byte (some b) =
    (lo ≤ b) × (b < lo + left) × (bit b byte ≡ 0) × ((k : ℕ) → lo ≤ k → k < b → bit k byte ≡ 1)

next_bit :
    (lo left byte : ℕ) (o : Option ℕ)
    → bit lo byte ≡ 1
    → FirstClear (lo + 1) left byte o
    → FirstClear lo (suc left) byte o
next_bit lo left byte none used f = λ k p q. elim (dec_lt lo k) [
  | yes above ↦ f k (omega arith) (omega arith)
  | no here ↦ let e : k ≡ lo = omega arith in rw e used
]
next_bit lo left byte (some b) used f = (
  omega (arith, f.0),
  omega (arith, f.1),
  f.2,
  λ k p q. elim (dec_lt lo k) [
    | yes above ↦ f.3 k (omega arith) q
    | no here ↦ let e : k ≡ lo = omega arith in rw e used
  ],
)

pub clear_bit-FirstClear : (left lo byte : ℕ) → FirstClear lo left byte (clear_bit left lo byte)
unfolding clear_bit
clear_bit-FirstClear zero lo byte = λ k p q. absurd (omega arith)
clear_bit-FirstClear (suc left) lo byte = elim (Bool-cases (bit_and byte (2 ^ lo) == 0)) [
  | inl clear ↦
      rw clear (omega arith, omega arith, test_clear lo byte clear, λ k p q. absurd (omega arith))
  | inr used ↦ rw used (
      next_bit lo left byte (clear_bit left (lo + 1) byte) (test_set lo byte used)
        (clear_bit-FirstClear left (lo + 1) byte))
]

-- Bit `n` of a bitmap.
abbrev pub bit_at : Buffer → ℕ → ℕ
bit_at bitmap n = bit (n % 8) (bitmap (n / 8))

-- `scan` finds the first clear bit of the bytes from `i` on, among `left` bytes.
abbrev pub FirstFree : (i left : ℕ) → Buffer → Option (ℕ × ℕ) → Type 0
FirstFree i left b none = (n : ℕ) → i * 8 ≤ n → n < (i + left) * 8 → bit_at b n ≡ 1
FirstFree i left b (some (j, k)) =
    (j < i + left)
    × (k < 8)
    × (bit k (b j) ≡ 0)
    × ((n : ℕ) → i * 8 ≤ n → n < j * 8 + k → bit_at b n ≡ 1)

-- All bits of a byte are set.
abbrev IsFull : ℕ → Type 0
IsFull byte = (k : ℕ) → k < 8 → bit k byte ≡ 1

-- Bits of the byte `i` below `k` are the numbers from `i * 8` to `i * 8 + k`.
in_byte :
    (i k : ℕ) (b : Buffer) (n : ℕ)
    → ((j : ℕ) → j < k → bit j (b i) ≡ 1)
    → k ≤ 8
    → i * 8 ≤ n
    → n < i * 8 + k
    → bit_at b n ≡ 1
in_byte i k b n used le p q = let e : n / 8 ≡ i = omega arith in rw e (used (n % 8) (omega arith))

next_byte :
    (i left : ℕ) (b : Buffer) (o : Option (ℕ × ℕ))
    → IsFull (b i)
    → FirstFree (i + 1) left b o
    → FirstFree i (suc left) b o
next_byte i left b none full f = λ n p q. elim (dec_lt n (i * 8 + 8)) [
  | yes here ↦ in_byte i 8 b n full (omega arith) p here
  | no above ↦ f n (omega arith) (omega arith)
]
next_byte i left b (some (j, k)) full f = (
  omega (arith, f.0),
  f.1,
  f.2,
  λ n p q. elim (dec_lt n (i * 8 + 8)) [
    | yes here ↦ in_byte i 8 b n full (omega arith) p here
    | no above ↦ f.3 n (omega arith) q
  ],
)

pub scan-FirstFree : (left i : ℕ) (b : Buffer) → FirstFree i left b (scan left i b)
unfolding scan
scan-FirstFree zero i b = λ n p q. absurd (omega arith)
scan-FirstFree (suc left) i b = elim (Bool-cases (b i == 0xff)) [
  | inl all_ones ↦
      let e : b i ≡ 255 = ground arith in
      rw all_ones (
        next_byte i left b (scan left (i + 1) b) (λ k h. rw e (bit-ones k h))
          (scan-FirstFree left (i + 1) b))
  | inr other ↦ elim (Option-cases (clear_bit 8 0 (b i))) [
    | inl e ↦
        let full = subst (FirstClear 0 8 (b i)) e (clear_bit-FirstClear 8 0 (b i)) in
        rw (other, e)
          (next_byte i left b (scan left (i + 1) b) (λ k h. full k (omega arith) (omega arith))
            (scan-FirstFree left (i + 1) b))
    | inr (k, e) ↦
        let first = subst (FirstClear 0 8 (b i)) e (clear_bit-FirstClear 8 0 (b i)) in
        rw (other, e)
          (
            omega arith,
            omega (arith, first.1),
            first.2,
            λ n p q.
                in_byte i k b n (λ j h. first.3 j (omega arith) h) (omega (arith, first.1)) p q,
          )
  ]
]
