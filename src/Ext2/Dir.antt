-- ===== src/Ext2/Dir.antt =====
-- Directory blocks: `name_matches`, `ext2_find_in_dir`, `ext2_link_dir_entry` and
-- `ext2_unlink_dir_entry` of src/kernel/filesystem/ext2.cpp. A name is the list of its characters.
-- Where an entry runs over the end of the 1024-byte buffer, which C++ leaves undefined, the model
-- reads zeros, and what it writes there does not reach the disk.
pub mod Search
pub mod Entries
pub mod Link
use solstice_os.Base.{
  ℕ, zero, suc, ◌+◌, ◌-◌, ◌*◌, ◌/◌, ◌%◌, ◌^◌, Bool, true, false, ◌&&◌, ◌||◌, not, if◌then◌else◌,
  ltb, ◌==◌, Option, none, some, List, [], ◌∷◌, length, take,
}
use solstice_os.Ext2.Disk.{
  Buffer, Fs, read_block, write_block, read16, read32, write8, write16, write32,
}
use solstice_os.Ext2.Inode.{read_inode, i_block}

-- The fields of the `ext2_dir_entry` at an offset of a block.
abbrev pub inode_at : Buffer → ℕ → ℕ
inode_at b o = read32 b o

abbrev pub rec_len : Buffer → ℕ → ℕ
rec_len b o = read16 b (o + 4)

abbrev pub name_len : Buffer → ℕ → ℕ
name_len b o = b (o + 6)

abbrev pub file_type : Buffer → ℕ → ℕ
file_type b o = b (o + 7)

abbrev pub name_offset : ℕ → ℕ
name_offset o = o + 8

-- The loop of `name_matches` from the character at `at` on.
unfoldable pub same_chars : Buffer → ℕ → List ℕ → Bool
same_chars b at [] = true
same_chars b at (c ∷ name) = if b at == c then same_chars b (at + 1) name else false

unfoldable pub name_matches : Buffer → ℕ → List ℕ → Bool
name_matches b o name =
    if name_len b o == length name then same_chars b (name_offset o) name else false

-- How a walk over the entries of a block ends.
pub data Walk : Type 0 where
  found : ℕ → Walk
  missing out_of_fuel : Walk

-- The loop of `ext2_find_in_dir` at an offset: the offset of the entry with the name.
unfoldable pub find_entry : (fuel : ℕ) → Buffer → List ℕ → ℕ → Walk
find_entry zero b name o = out_of_fuel
find_entry (suc fuel) b name o =
    let rest = find_entry fuel b name (o + rec_len b o) in
    if not (ltb o 1024)
    then missing
    else if inode_at b o == 0 || rec_len b o == 0
    then missing
    else if name_matches b o name
    then found o
    else rest

-- The result is the inode number and the type; 0 if the name is not there. Each round goes at least
-- one byte on, so that 1025 rounds are enough.
unfoldable pub find_in_dir : (dir_inode_num : ℕ) → List ℕ → Fs → ℕ × ℕ
find_in_dir dir_inode_num name fs =
    let b = read_block (i_block (read_inode dir_inode_num fs) 0) fs in
    elim (find_entry 1025 b name 0) [
      | found o ↦ (inode_at b o, file_type b o)
      | missing ↦ (0, 0)
      | out_of_fuel ↦ (0, 0)
    ]

-- What an entry needs: its header and its name, up to a multiple of 4.
abbrev pub padded : ℕ → ℕ
padded n = if n % 4 == 0 then n else n + (4 - n % 4)

unfoldable pub true_size : Buffer → ℕ → ℕ
true_size b o = padded (8 + name_len b o)

-- `memcpy` of the name.
unfoldable pub write_name : Buffer → ℕ → List ℕ → Buffer
write_name b at [] = b
write_name b at (c ∷ name) = write_name (write8 b at c) (at + 1) name

-- The headers of the entry at `o`, which gets the length `size`, and of a new one behind it, whose
-- length is `len` as a `uint16_t`.
unfoldable pub put_headers : Buffer → (o size len name_length new_inode type : ℕ) → Buffer
put_headers b o size len name_length new_inode type =
    let p = o + size in
    let b₁ = write16 b (o + 4) size in
    let b₂ = write32 b₁ p new_inode in
    let b₃ = write8 b₂ (p + 7) type in
    let b₄ = write8 b₃ (p + 6) name_length in write16 b₄ (p + 4) len

-- The last entry at `o` is cut to its true size, and the new entry stands behind it. `name_len` is
-- the string's length as a byte, and so many characters are copied.
unfoldable pub append_entry : Buffer → ℕ → List ℕ → (new_inode type : ℕ) → Buffer
append_entry b o name new_inode type =
    let size = true_size b o in
    write_name (put_headers b o size (rec_len b o + 2 ^ 16 - size) (length name) new_inode type)
      (name_offset (o + size)) (take (length name % 2 ^ 8) name)

-- How the loop of `ext2_link_dir_entry` ends.
pub data LinkResult : Type 0 where
  linked : Buffer → LinkResult
  corrupt no_room : LinkResult

-- The loop, with `left` of its 100 rounds to go.
unfoldable pub link_entry : (left : ℕ) → Buffer → List ℕ → (new_inode type o : ℕ) → LinkResult
link_entry zero b name new_inode type o = no_room
link_entry (suc left) b name new_inode type o =
    let rest = link_entry left b name new_inode type (o + rec_len b o) in
    if not (ltb o 1024)
    then no_room
    else if rec_len b o == 0
    then corrupt
    else if ltb (true_size b o) (rec_len b o) && (o + rec_len b o == 1024)
    then linked (append_entry b o name new_inode type)
    else rest

unfoldable pub link_dir_entry : (parent : ℕ) → List ℕ → (new_inode type : ℕ) → Fs → Bool × Fs
link_dir_entry parent name new_inode type fs =
    let dir_block = i_block (read_inode parent fs) 0 in
    elim (link_entry 100 (read_block dir_block fs) name new_inode type 0) [
      | linked b ↦ (true, write_block dir_block b fs)
      | corrupt ↦ (false, fs)
      | no_room ↦ (false, fs)
    ]

-- The loop of `ext2_unlink_dir_entry`: the offsets of the entry and of the one before it.
unfoldable pub find_with_previous :
    (fuel : ℕ) → Buffer → List ℕ → (previous : Option ℕ) → ℕ → Option (Option ℕ × ℕ)
find_with_previous zero b name previous o = none
find_with_previous (suc fuel) b name previous o =
    let rest = find_with_previous fuel b name (some o) (o + rec_len b o) in
    if not (ltb o 1024)
    then none
    else if rec_len b o == 0
    then none
    else if name_matches b o name
    then some (previous, o)
    else rest

-- The first entry loses its inode; any other is merged into the entry before it.
unfoldable pub remove_entry : Buffer → Option ℕ → ℕ → Buffer
remove_entry b none o = write32 b o 0
remove_entry b (some p) o = write16 b (p + 4) (rec_len b p + rec_len b o)

unfoldable pub unlink_dir_entry : (parent : ℕ) → List ℕ → Fs → Bool × Fs
unlink_dir_entry parent name fs =
    let dir_block = i_block (read_inode parent fs) 0 in
    let b = read_block dir_block fs in
    elim (find_with_previous 1025 b name none 0) [
      | none ↦ (false, fs)
      | some (previous, o) ↦ (true, write_block dir_block (remove_entry b previous o) fs)
    ]
