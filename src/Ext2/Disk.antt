-- ===== src/Ext2/Disk.antt =====
-- Sectors and blocks: `read_disk` and `write_disk` of src/kernel/utils/utils.cpp with a drive that
-- serves each request, and the block functions and `ext2_init` of src/kernel/filesystem/ext2.cpp.
-- A disk is a function from byte addresses to bytes, and a buffer one from offsets to bytes. The
-- port, which is the same in every call of the shell, is left out.
use solstice_os.Base.{
  Bool-cases, inl, inr, sym, ◌⊎◌, ℕ, ◌+◌, ◌-◌, ◌*◌, ◌/◌, ◌%◌, ◌^◌, ◌<◌, ◌≤◌, ◌≡◌, Bool, true, false,
  ◌&&◌, if◌then◌else◌, ltb, leb, ◌==◌, List, arith, refl, ◌∙◌, ap,
}

abbrev pub Buffer : Type 0
Buffer = ℕ → ℕ

abbrev pub Disk : Type 0
Disk = ℕ → ℕ

-- The globals of ext2.cpp, with the disk. `current_path` is `g_current_path`.
pub record Fs : Type 0 where
  pub disk : Disk
  pub initialized : Bool
  pub block_size : ℕ
  pub block_bitmap : ℕ
  pub inode_bitmap : ℕ
  pub inode_table : ℕ
  pub current_dir : ℕ
  pub current_path : List ℕ

-- 28 bits of the sector number reach the drive, and 8 bits of the count.
unfoldable pub read_disk : (lba count : ℕ) → Disk → Buffer → Buffer
read_disk lba count d b =
    λ i. if ltb i (count % 2 ^ 8 * 512) then d (lba % 2 ^ 28 * 512 + i) else b i

unfoldable pub write_disk : (lba count : ℕ) → Buffer → Disk → Disk
write_disk lba count b d =
    let base = lba % 2 ^ 28 * 512 in
    λ a. if leb base a && ltb a (base + count % 2 ^ 8 * 512) then b (a - base) else d a

-- What a local array holds before it is written.
abbrev pub uninitialized : Buffer
uninitialized i = 0

unfoldable pub read_block : ℕ → Fs → Buffer
read_block block fs =
    let sectors_per_block = fs.block_size / 512 in
    read_disk (block * sectors_per_block % 2 ^ 32) sectors_per_block fs.disk uninitialized

unfoldable pub write_block : ℕ → Buffer → Fs → Fs
write_block block b fs = record fs { disk = write_disk (block * 2 % 2 ^ 32) 2 b fs.disk }

-- The little-endian fields of the packed structures.
abbrev pub read16 : Buffer → ℕ → ℕ
read16 b o = b o + 256 * b (o + 1)

abbrev pub read32 : Buffer → ℕ → ℕ
read32 b o = b o + 256 * b (o + 1) + 65536 * b (o + 2) + 16777216 * b (o + 3)

abbrev pub write8 : Buffer → ℕ → ℕ → Buffer
write8 b o v = λ i. if i == o then v % 256 else b i

abbrev pub write16 : Buffer → ℕ → ℕ → Buffer
write16 b o v = λ i. if i == o then v % 256 else if i == o + 1 then v / 256 % 256 else b i

abbrev pub write32 : Buffer → ℕ → ℕ → Buffer
write32 b o v = λ i.
    if i == o
    then v % 256
    else if i == o + 1
    then v / 256 % 256
    else if i == o + 2
    then v / 65536 % 256
    else if i == o + 3
    then v / 16777216 % 256
    else b i

abbrev pub ext2_magic : ℕ
ext2_magic = 0xef53

-- `s_log_block_size` is at byte 24 of the superblock and `s_magic` at byte 56; the block group
-- descriptor begins with its three block numbers.
unfoldable pub ext2_init : Fs → Bool × Fs
ext2_init fs =
    let superblock = read_disk 2 2 fs.disk uninitialized in
    let sized = record fs { block_size = 1024 * 2 ^ read32 superblock 24 % 2 ^ 32 } in
    let bgdt = read_block 2 sized in
    if fs.initialized
    then (true, fs)
    else if read16 superblock 56 == ext2_magic
    then (
      true,
      record sized {
        initialized = true;
        block_bitmap = read32 bgdt 0;
        inode_bitmap = read32 bgdt 4;
        inode_table = read32 bgdt 8;
      },
    )
    else (false, fs)

-- What the properties take for granted of a mounted disk: blocks of 1024 bytes, the only size that
-- the buffers of ext2.cpp have room for, and cells that hold bytes.
pub record IsMounted (fs : Fs) : Type 0 where
  pub block_1024 : fs.block_size ≡ 1024
  pub bytes : (a : ℕ) → fs.disk a < 256

-- The block numbers whose sectors a 28-bit sector number reaches.
abbrev pub InReach : ℕ → Type 0
InReach block = block < 2 ^ 27

module _ (fs : Fs) (block : ℕ) (sized : fs.block_size ≡ 1024) (reach : InReach block) where
  pub read_block_at : (i : ℕ) → i < 1024 → read_block block fs i ≡ fs.disk (block * 1024 + i)
  unfolding read_block read_disk
  read_block_at i h =
      let sectors : fs.block_size / 512 ≡ 2 = omega (arith, sized) in
      let address : block * 2 % 2 ^ 32 % 2 ^ 28 * 512 + i ≡ block * 1024 + i = omega arith in
      rw sectors (ground (arith, ap fs.disk address))

  pub write_block_at :
      (b : Buffer) (i : ℕ) → i < 1024 → (write_block block b fs).disk (block * 1024 + i) ≡ b i
  unfolding write_block write_disk
  write_block_at b i h =
      let base : block * 2 % 2 ^ 32 % 2 ^ 28 * 512 ≡ block * 1024 = omega arith in
      let offset : block * 1024 + i - block * 1024 ≡ i = omega arith in
      rw base (ground (arith, ap b offset))

  pub write_block_other :
      (b : Buffer) (a : ℕ)
      → (a < block * 1024) ⊎ (block * 1024 + 1024 ≤ a)
      → (write_block block b fs).disk a ≡ fs.disk a
  unfolding write_block write_disk
  write_block_other b a out =
      let base : block * 2 % 2 ^ 32 % 2 ^ 28 * 512 ≡ block * 1024 = omega arith in
      rw base (ground arith)

  pub write_block-IsMounted :
      (b : Buffer)
      → ((a : ℕ) → fs.disk a < 256)
      → ((i : ℕ) → i < 1024 → b i < 256)
      → IsMounted (write_block block b fs)
  unfolding write_block write_disk
  write_block-IsMounted b bytes small = record {
    block_1024 = sized;
    bytes = λ a.
        let base : block * 2 % 2 ^ 32 % 2 ^ 28 * 512 ≡ block * 1024 = omega arith in
        rw base (ground (arith, small (a - block * 1024), bytes a));
  }

write_block_sized :
    (block : ℕ) (b : Buffer) (fs : Fs) → (write_block block b fs).block_size ≡ fs.block_size
unfolding write_block
write_block_sized block b fs = refl

-- With blocks of 1024 bytes, for blocks that the drive can reach: a block that is written is read
-- back, and every other block reads as before.
pub read_block-write_block :
    (fs : Fs) (block other : ℕ) (b : Buffer) (i : ℕ)
    → fs.block_size ≡ 1024
    → InReach block
    → InReach other
    → i < 1024
    → read_block other (write_block block b fs) i
      ≡ (if other == block then b i else read_block other fs i)
read_block-write_block fs block other b i sized reach reach' h =
    let fs' = write_block block b fs in
    let new = read_block_at fs' other (write_block_sized block b fs ∙ sized) reach' i h in
    let old = read_block_at fs other sized reach' i h in
    elim (Bool-cases (other == block)) [
      | inl same ↦
          let e : other * 1024 + i ≡ block * 1024 + i = ground arith in
          rw same (new ∙ ap fs'.disk e ∙ write_block_at fs block sized reach b i h)
      | inr apart ↦
          let out : (other * 1024 + i < block * 1024) ⊎ (block * 1024 + 1024 ≤ other * 1024 + i) =
            ground arith in
          rw apart (new ∙ write_block_other fs block sized reach b (other * 1024 + i) out ∙ sym old)
    ]
