-- ===== src/Ext2/Inode.antt =====
-- Inodes: `ext2_read_inode` and `ext2_write_inode` of src/kernel/filesystem/ext2.cpp. An
-- `ext2_inode` is its 128 bytes, with the fields at their offsets in src/include/ext2.h.
use solstice_os.Base.{
  ℕ, ◌+◌, ◌-◌, ◌*◌, ◌/◌, ◌%◌, ◌^◌, ◌<◌, ◌≤◌, ◌≡◌, ◌≢◌, ◌⊎◌, inl, inr, true, ◌&&◌, if◌then◌else◌,
  ltb, leb, ◌==◌, arith, refl, ◌∙◌, ap, Bool-cases,
}
use solstice_os.Ext2.Disk.{
  Buffer, Fs, IsMounted, read_block, write_block, read16, read32, read_block-write_block,
}

abbrev pub inode_size : ℕ
inode_size = 128

abbrev pub inodes_per_block : ℕ
inodes_per_block = 8

abbrev pub i_mode : Buffer → ℕ
i_mode b = read16 b 0

abbrev pub i_size : Buffer → ℕ
i_size b = read32 b 4

abbrev pub i_links_count : Buffer → ℕ
i_links_count b = read16 b 26

abbrev pub i_block : Buffer → ℕ → ℕ
i_block b k = read32 b (40 + 4 * k)

-- Where an inode lies. The arithmetic is that of `uint32_t`.
abbrev pub index_of : ℕ → ℕ
index_of inode_num = (inode_num + 2 ^ 32 - 1) % 2 ^ 32

abbrev pub target_block : Fs → ℕ → ℕ
target_block fs inode_num = (fs.inode_table + index_of inode_num / inodes_per_block) % 2 ^ 32

abbrev pub byte_offset : ℕ → ℕ
byte_offset inode_num = index_of inode_num % inodes_per_block * inode_size

unfoldable pub read_inode : ℕ → Fs → Buffer
read_inode inode_num fs = λ i. read_block (target_block fs inode_num) fs (byte_offset inode_num + i)

-- The inode's block with the inode copied into it.
abbrev patched : Fs → ℕ → Buffer → Buffer
patched fs inode_num inode =
    let b = read_block (target_block fs inode_num) fs in
    let o = byte_offset inode_num in
    λ i. if leb o i && ltb i (o + inode_size) then inode (i - o) else b i

unfoldable pub write_inode : ℕ → Buffer → Fs → Fs
write_inode inode_num inode fs =
    write_block (target_block fs inode_num) (patched fs inode_num inode) fs

-- The inode has a place in the table that the drive can reach.
abbrev pub IsInode : Fs → ℕ → Type 0
IsInode fs n = (0 < n) × (n < 2 ^ 32) × (fs.inode_table + (n - 1) / 8 < 2 ^ 27)

placed :
    (fs : Fs) (n : ℕ)
    → IsInode fs n
    → (target_block fs n ≡ fs.inode_table + (n - 1) / 8)
      × (byte_offset n ≡ (n - 1) % 8 * 128)
      × (target_block fs n < 2 ^ 27)
placed fs n is = omega arith

-- On a mounted file system, for inodes whose blocks in the table the drive can reach: an inode
-- that is written is read back, byte for byte, and every other inode reads as before.
pub read_inode-write_inode :
    (fs : Fs) (n m : ℕ) (inode : Buffer) (i : ℕ)
    → IsMounted fs
    → IsInode fs n
    → IsInode fs m
    → i < inode_size
    → read_inode m (write_inode n inode fs) i ≡ (if m == n then inode i else read_inode m fs i)
unfolding read_inode write_inode write_block
read_inode-write_inode fs n m inode i mounted is_n is_m small =
    let tn = placed fs n is_n in
    let tm = placed fs m is_m in
    let at = byte_offset m + i in
    let in_block : at < 1024 = omega (arith, tm) in
    let b' = patched fs n inode in
    let found =
      read_block-write_block fs (target_block fs n) (target_block fs m) b' at mounted.block_1024
        tn.2 tm.2 in_block in
    elim (Bool-cases (m == n)) [
      | inl same ↦
          let e : m ≡ n = ground arith in
          let back : at - byte_offset n ≡ i = omega (arith, tn.0, tn.1, tm.1, e) in
          let block : (target_block fs m == target_block fs n) ≡ true =
            ground (arith, tn.0, tm.0) in
          rw same (found ∙ rw block (ground (arith, ap inode back, tn.1, tm.1)))
      | inr apart ↦
          let ne : m ≢ n = ground arith in
          rw apart (
            found ∙ elim (Bool-cases (target_block fs m == target_block fs n)) [
              | inl shared ↦
                  let t : target_block fs m ≡ target_block fs n = ground arith in
                  let out : (at < byte_offset n) ⊎ (byte_offset n + 128 ≤ at) =
                    omega (arith, t, ne, tn.0, tn.1, tm.0, tm.1) in
                  rw shared (ground (arith, out, ap (λ k. read_block k fs at) t))
              | inr distinct ↦ rw distinct refl
            ])
    ]
