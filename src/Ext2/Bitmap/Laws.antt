-- ===== src/Ext2/Bitmap/Laws.antt =====
-- What allocating and freeing do to the disk.
use Prim.Native.Nat.{bit_and, bit_or}
use solstice_os.Base.{
  ℕ, ◌+◌, ◌-◌, ◌*◌, ◌/◌, ◌%◌, ◌^◌, ◌<◌, ◌≤◌, ◌≡◌, ◌≢◌, ◌⊎◌, refl, ap, sym, subst, ◌∙◌, inl, inr,
  true, false, if◌then◌else◌, ◌==◌, arith, Bool-cases, Option-cases,
}
use solstice_os.Base.Bits.{bit, or-two_pow, bit-add_self, bit-add_ne, add-lt}
use solstice_os.Base.Masks.{bit-clear}
use solstice_os.Ext2.Disk.{
  write_block-IsMounted, Fs, IsMounted, InReach, read_block, write_block, read_block_at,
  write_block_other, read_block-write_block,
}
use solstice_os.Ext2.Bitmap.{scan, alloc_bit, free_bit}
use solstice_os.Ext2.Bitmap.Bytes.{bit_at, FirstFree, scan-FirstFree}

-- Bit `n` of the bitmap in a block of the disk.
abbrev pub used : Fs → (bitmap_block n : ℕ) → ℕ
used fs block n = bit_at (read_block block fs) n

-- The outcome of an allocation. With no clear bit: 0, and nothing is written. Else the result is the
-- number after the first clear bit's, which is set now; the other bits, and the disk outside the
-- bitmap's block, are as before.
pub data Allocated (block : ℕ) (fs : Fs) : ℕ × Fs → Type 0 where
  full : ((n : ℕ) → n < 8192 → used fs block n ≡ 1) → Allocated block fs (0, fs)
  taken :
      (n : ℕ) (fs' : Fs)
      → n < 8192
      → used fs block n ≡ 0
      → ((m : ℕ) → m < n → used fs block m ≡ 1)
      → ((m : ℕ) → m < 8192 → used fs' block m ≡ (if m == n then 1 else used fs block m))
      → ((a : ℕ) → (a < block * 1024) ⊎ (block * 1024 + 1024 ≤ a) → fs'.disk a ≡ fs.disk a)
      → IsMounted fs'
      → Allocated block fs (n + 1, fs')

number_at : (i k : ℕ) → k < 8 → ((i * 8 + k) / 8 ≡ i) × ((i * 8 + k) % 8 ≡ k)
number_at i k h = omega arith

-- Setting a clear bit of the bitmap.
mark_used :
    (block : ℕ) (fs : Fs)
    → IsMounted fs
    → InReach block
    → (i k : ℕ) → k < 8
    → i < 1024
    → bit k (read_block block fs i) ≡ 0
    → (m : ℕ) → m < 8192
    → let b = read_block block fs in
      used (write_block block (λ j. if j == i then bit_or (b i) (2 ^ k) else b j) fs) block m
      ≡ (if m == i * 8 + k then 1 else used fs block m)
mark_used block fs mounted reach i k small below clear m h =
    let b = read_block block fs in
    let b' = λ (j : ℕ). if j == i then bit_or (b i) (2 ^ k) else b j in
    let back =
      read_block-write_block fs block block b' (m / 8) mounted.block_1024 reach reach
        (omega arith) in
    let same : (block == block) ≡ true = ground arith in
    let got : read_block block (write_block block b' fs) (m / 8) ≡ b' (m / 8) =
      back ∙ rw same refl in
    let sum : bit_or (b i) (2 ^ k) ≡ b i + 2 ^ k =
      omega (arith, or-two_pow k (b i), ap (λ (t : ℕ). t * 2 ^ k) clear) in
    ap (bit (m % 8)) got ∙ elim (Bool-cases (m / 8 == i)) [
      | inl here ↦
          let e : m / 8 ≡ i = ground arith in
          elim (Bool-cases (m == i * 8 + k)) [
            | inl hit ↦
                let q : m % 8 ≡ k = ground arith in
                rw (here, hit, sum, q) (bit-add_self k (b i) clear)
            | inr miss ↦
                let q : m % 8 ≢ k = ground arith in
                rw (here, miss, sum)
                  (bit-add_ne (m % 8) k (b i) q clear ∙ ap (λ j. bit (m % 8) (b j)) (sym e))
          ]
      | inr there ↦ let miss : (m == i * 8 + k) ≡ false = ground arith in rw (there, miss) refl
    ]

byte_of :
    (block : ℕ) (fs : Fs)
    → IsMounted fs
    → InReach block
    → (i : ℕ) → i < 1024
    → read_block block fs i < 256
byte_of block fs mounted reach i h =
    rw (read_block_at fs block mounted.block_1024 reach i h) (mounted.bytes _)

marked_byte :
    (block : ℕ) (fs : Fs)
    → IsMounted fs
    → InReach block
    → (i k : ℕ) → k < 8
    → i < 1024
    → bit k (read_block block fs i) ≡ 0
    → (j : ℕ) → j < 1024
    → (if j == i then bit_or (read_block block fs i) (2 ^ k) else read_block block fs j) < 256
marked_byte block fs mounted reach i k small below clear j h =
    let b = read_block block fs in
    let sum : bit_or (b i) (2 ^ k) ≡ b i + 2 ^ k =
      omega (arith, or-two_pow k (b i), ap (λ (t : ℕ). t * 2 ^ k) clear) in
    let fits = add-lt 8 k (b i) small (byte_of block fs mounted reach i below) clear in
    ground (arith, sum, fits, byte_of block fs mounted reach j h)

-- `ext2_alloc_block` and `ext2_alloc_inode`, on a mounted file system whose bitmap block the drive
-- can reach: when all 8192 bits are set the result is 0, and nothing is written; else it is the
-- number after the first clear bit's, which is set now, and the other bits, and the disk outside
-- the bitmap's block, are as before.
pub alloc_bit-Allocated :
    (block : ℕ) (fs : Fs) → IsMounted fs → InReach block → Allocated block fs (alloc_bit block fs)
unfolding alloc_bit
alloc_bit-Allocated block fs mounted reach =
    let bitmap = read_block block fs in
    let found = scan-FirstFree 1024 0 bitmap in
    elim (Option-cases (scan 1024 0 bitmap)) [
      | inl e ↦
          let all = subst (FirstFree 0 1024 bitmap) e found in
          rw (e, alloc_bit) (full λ n h. all n (omega arith) (omega arith))
      | inr ((i, k), e) ↦
          let (below, small, clear, before) = subst (FirstFree 0 1024 bitmap) e found in
          let at_n = number_at i k small in
          rw (e, alloc_bit)
            (taken (i * 8 + k) _ (omega arith)
              (ground (
                arith,
                at_n,
                ap (λ j. bit k (bitmap j)) at_n.0,
                ap (λ j. bit j (bitmap ((i * 8 + k) / 8))) at_n.1,
                clear,
              ))
              (λ m h. before m (omega arith) h)
              (mark_used block fs mounted reach i k small below clear)
              (write_block_other fs block mounted.block_1024 reach _)
              (write_block-IsMounted fs block mounted.block_1024 reach _ mounted.bytes
                (marked_byte block fs mounted reach i k small below clear)))
    ]

-- On a mounted file system whose bitmap block the drive can reach, `ext2_free_block` and
-- `ext2_free_inode` of a number from 1 to 8192 clear its bit, and leave the other bits and the
-- disk outside the bitmap's block as they were.
pub free_bit-clears :
    (block n : ℕ) (fs : Fs)
    → IsMounted fs
    → InReach block
    → n < 8192
    → ((m : ℕ)
        → m < 8192
        → used (free_bit block (n + 1) fs) block m ≡ (if m == n then 0 else used fs block m))
      × ((a : ℕ)
          → (a < block * 1024) ⊎ (block * 1024 + 1024 ≤ a)
          → (free_bit block (n + 1) fs).disk a ≡ fs.disk a)
unfolding free_bit
free_bit-clears block n fs mounted reach small =
    let b = read_block block fs in
    let index : (n + 1 + 2 ^ 32 - 1) % 2 ^ 32 ≡ n = omega arith in
    let cleared = bit_and (b (n / 8)) (2 ^ 8 - 1 - 2 ^ (n % 8)) in
    let b' = λ (j : ℕ). if j == n / 8 then cleared else b j in
    rw index (
      (λ m h.
          let back =
            read_block-write_block fs block block b' (m / 8) mounted.block_1024 reach reach
              (omega arith) in
          let same : (block == block) ≡ true = ground arith in
          let got : read_block block (write_block block b' fs) (m / 8) ≡ b' (m / 8) =
            back ∙ rw same refl in
          let bits =
            bit-clear 8 (n % 8) (b (n / 8)) (m % 8) (omega arith)
              (byte_of block fs mounted reach (n / 8) (omega arith)) in
          ap (bit (m % 8)) got ∙ elim (Bool-cases (m / 8 == n / 8)) [
            | inl here ↦
                let e : m / 8 ≡ n / 8 = ground arith in
                rw here (bits ∙ ground (arith, ap (λ j. bit (m % 8) (b j)) e))
            | inr there ↦ let miss : (m == n) ≡ false = ground arith in rw (there, miss) refl
          ]),
      write_block_other fs block mounted.block_1024 reach b',
    )

-- On a mounted file system whose bitmap block the drive can reach, freeing what was just allocated
-- gives every bit of the bitmap back, and the disk outside the bitmap's block is as before both
-- calls; provided that the allocation did not fail.
pub free_bit-alloc_bit :
    (block : ℕ) (fs : Fs)
    → IsMounted fs
    → InReach block
    → (alloc_bit block fs).0 ≢ 0
    → let fs' = free_bit block (alloc_bit block fs).0 (alloc_bit block fs).1 in
      ((m : ℕ) → m < 8192 → used fs' block m ≡ used fs block m)
      × ((a : ℕ) → (a < block * 1024) ⊎ (block * 1024 + 1024 ≤ a) → fs'.disk a ≡ fs.disk a)
free_bit-alloc_bit block fs mounted reach some_number =
    restored (alloc_bit block fs) (alloc_bit-Allocated block fs mounted reach) some_number
  where
    restored :
        (r : ℕ × Fs)
        → Allocated block fs r
        → r.0 ≢ 0
        → ((m : ℕ) → m < 8192 → used (free_bit block r.0 r.1) block m ≡ used fs block m)
          × ((a : ℕ)
              → (a < block * 1024) ⊎ (block * 1024 + 1024 ≤ a)
              → (free_bit block r.0 r.1).disk a ≡ fs.disk a)
    restored r (full all) ne = absurd (ne refl)
    restored r (taken n fs' small free before bits outside mounted') ne =
        let (cleared, outside') = free_bit-clears block n fs' mounted' reach small in
        (
          λ m h. elim (Bool-cases (m == n)) [
            | inl hit ↦
                let e : m ≡ n = ground arith in
                cleared m h ∙ rw hit (sym (ap (used fs block) e ∙ free))
            | inr miss ↦ cleared m h ∙ rw miss (bits m h ∙ rw miss refl)
          ],
          λ a o. outside' a o ∙ outside a o,
        )
