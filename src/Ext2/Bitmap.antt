-- ===== src/Ext2/Bitmap.antt =====
-- The allocation bitmaps: `ext2_alloc_block`, `ext2_alloc_inode`, `ext2_free_block` and
-- `ext2_free_inode` of src/kernel/filesystem/ext2.cpp.
pub mod Bytes
pub mod Laws
use Prim.Native.Nat.{bit_and, bit_or}
use solstice_os.Base.{
  ℕ, zero, suc, ◌+◌, ◌-◌, ◌*◌, ◌/◌, ◌%◌, ◌^◌, Bool, true, false, if◌then◌else◌, ltb, ◌==◌, Option,
  none, some,
}
use solstice_os.Ext2.Disk.{Buffer, Fs, read_block, write_block}

-- The loop over the bits of a byte, at `bit` with `left` bits to go.
unfoldable pub clear_bit : (left bit byte : ℕ) → Option ℕ
clear_bit zero bit byte = none
clear_bit (suc left) bit byte =
    let rest = clear_bit left (bit + 1) byte in
    if bit_and byte (2 ^ bit) == 0 then some bit else rest

-- The loop over the bytes, at `i` with `left` bytes to go: the byte and the bit of the first clear
-- bit.
unfoldable pub scan : (left i : ℕ) → Buffer → Option (ℕ × ℕ)
scan zero i bitmap = none
scan (suc left) i bitmap =
    let rest = scan left (i + 1) bitmap in
    if bitmap i == 0xff
    then rest
    else elim (clear_bit 8 0 (bitmap i)) [ none ↦ rest | some bit ↦ some (i, bit) ]

-- The body that `ext2_alloc_block` and `ext2_alloc_inode` share: the result is 0 when no bit is clear.
unfoldable pub alloc_bit : (bitmap_block : ℕ) → Fs → ℕ × Fs
alloc_bit bitmap_block fs =
    let bitmap = read_block bitmap_block fs in
    elim (scan 1024 0 bitmap) [
      | none ↦ (0, fs)
      | some (i, bit) ↦ (
        i * 8 + bit + 1,
        write_block bitmap_block (λ j. if j == i then bit_or (bitmap i) (2 ^ bit) else bitmap j) fs,
      )
    ]

unfoldable pub ext2_alloc_block : Fs → ℕ × Fs
ext2_alloc_block fs = alloc_bit fs.block_bitmap fs

unfoldable pub ext2_alloc_inode : Fs → ℕ × Fs
ext2_alloc_inode fs = alloc_bit fs.inode_bitmap fs

-- The body that `ext2_free_block` and `ext2_free_inode` share.
unfoldable pub free_bit : (bitmap_block number : ℕ) → Fs → Fs
free_bit bitmap_block number fs =
    let bitmap = read_block bitmap_block fs in
    let index = (number + 2 ^ 32 - 1) % 2 ^ 32 in
    let byte_idx = index / 8 in
    let cleared = bit_and (bitmap byte_idx) (2 ^ 8 - 1 - 2 ^ (index % 8)) in
    write_block bitmap_block (λ j. if j == byte_idx then cleared else bitmap j) fs

unfoldable pub ext2_free_block : ℕ → Fs → Fs
ext2_free_block block_num fs = free_bit fs.block_bitmap block_num fs

unfoldable pub ext2_free_inode : ℕ → Fs → Fs
ext2_free_inode inode_num fs = free_bit fs.inode_bitmap inode_num fs
