-- ===== src/Ext2/Commands.antt =====
-- The commands on files: `ext2_cd`, `ext2_ls`, `ext2_mkdir`, `ext2_touch` and `ext2_rm` of
-- src/kernel/filesystem/ext2.cpp. What they print is the outcome that they return. The arrays
-- `dir_name` and `file_name`, of 256 characters, have room for every component of a path.
pub mod Outcomes
use Prim.Native.Nat.{bit_and}
use solstice_os.Base.{
  Option, none, some, ◌&&◌, ℕ, zero, suc, ◌+◌, ◌-◌, ◌*◌, Bool, true, false, not, ◌||◌,
  if◌then◌else◌, ltb, ◌==◌, List, [], ◌∷◌, ◌++◌, length, take,
}
use solstice_os.Text.Strings.{peek, strcmp}
use solstice_os.Ext2.Disk.{Buffer, Fs, ext2_init, read_block, write_block, write8, write16, write32}
use solstice_os.Ext2.Inode.{i_mode, i_block, read_inode, write_inode}
use solstice_os.Ext2.Bitmap.{ext2_alloc_block, ext2_alloc_inode, ext2_free_block, ext2_free_inode}
use solstice_os.Ext2.Dir.{inode_at, rec_len, name_len, file_type, link_dir_entry, unlink_dir_entry}
use solstice_os.Ext2.Path.{slash, ext2_ft_dir, Traversal, traverse_path, is_empty}

abbrev pub ext2_ft_reg_file : ℕ
ext2_ft_reg_file = 1

abbrev pub ext2_s_ifdir : ℕ
ext2_s_ifdir = 0x4000

-- What a command says at its end. `overrun` is the writing behind `g_current_path`, which C++ leaves
-- undefined: the model ends there.
pub data Outcome : Type 0 where
  not_initialized exists missing_parent no_inode no_block not_linked done : Outcome
  no_such_file is_directory not_removed not_directory overrun : Outcome

abbrev zeros : Buffer
zeros i = 0

-- The inodes of a new directory (mode 0755) and of a new file (mode 0644).
abbrev pub directory_inode : ℕ → Buffer
directory_inode block =
    write32 (write16 (write32 (write32 (write16 zeros 0 0x41ed) 4 1024) 28 2) 26 2) 40 block

abbrev pub file_inode : Buffer
file_inode = write16 (write32 (write32 (write16 zeros 0 0x81a4) 4 0) 28 0) 26 1

-- The block of a new directory: `.`, and `..` to its end.
abbrev pub directory_block : (inode parent : ℕ) → Buffer
directory_block inode parent =
    let dot = write16 (write8 (write8 (write8 (write32 zeros 0 inode) 6 1) 7 2) 8 b'.') 4 12 in
    write16 (write8 (write8 (write8 (write8 (write32 dot 12 parent) 18 2) 19 2) 20 b'.') 21 b'.') 16
      (1024 - 12)

-- `ext2_mkdir` behind its checks, with the inode taken.
unfoldable pub make_directory : (parent : ℕ) → List ℕ → (new_inode : ℕ) → Fs → Outcome × Fs
make_directory parent name new_inode fs =
    let (new_block, fs₁) = ext2_alloc_block fs in
    let fs₂ = write_inode new_inode (directory_inode new_block) fs₁ in
    let fs₃ = write_block new_block (directory_block new_inode parent) fs₂ in
    let (linked, fs₄) = link_dir_entry parent name new_inode ext2_ft_dir fs₃ in
    if new_block == 0 then (no_block, fs₁) else if linked then (done, fs₄) else (not_linked, fs₄)

unfoldable pub ext2_mkdir : List ℕ → Fs → Outcome × Fs
ext2_mkdir path fs₀ =
    let (ok, fs) = ext2_init fs₀ in
    let t = traverse_path path fs in
    let (new_inode, fs') = ext2_alloc_inode fs in
    if not ok
    then (not_initialized, fs)
    else if not (t.inode == 0)
    then (exists, fs)
    else if t.parent == 0
    then (missing_parent, fs)
    else if new_inode == 0
    then (no_inode, fs')
    else make_directory t.parent t.name new_inode fs'

-- `ext2_touch` behind its checks, with the inode taken.
unfoldable pub make_file : (parent : ℕ) → List ℕ → (new_inode : ℕ) → Fs → Outcome × Fs
make_file parent name new_inode fs =
    let fs₁ = write_inode new_inode file_inode fs in
    let (linked, fs₂) = link_dir_entry parent name new_inode ext2_ft_reg_file fs₁ in
    if linked then (done, fs₂) else (not_linked, fs₂)

unfoldable pub ext2_touch : List ℕ → Fs → Outcome × Fs
ext2_touch path fs₀ =
    let (ok, fs) = ext2_init fs₀ in
    let t = traverse_path path fs in
    let (new_inode, fs') = ext2_alloc_inode fs in
    if not ok
    then (not_initialized, fs)
    else if not (t.inode == 0)
    then (exists, fs)
    else if t.parent == 0
    then (missing_parent, fs)
    else if new_inode == 0
    then (no_inode, fs')
    else make_file t.parent t.name new_inode fs'

-- The loop that frees a file's blocks, at `i` with `left` of the 12 direct blocks to go.
unfoldable pub free_file_blocks : (left i : ℕ) → Buffer → Fs → Fs
free_file_blocks zero i target fs = fs
free_file_blocks (suc left) i target fs =
    let rest = free_file_blocks left (i + 1) target (ext2_free_block (i_block target i) fs) in
    if i_block target i == 0 then fs else rest

unfoldable pub ext2_rm : List ℕ → Fs → Outcome × Fs
ext2_rm path fs₀ =
    let (ok, fs) = ext2_init fs₀ in
    let t = traverse_path path fs in
    let target = read_inode t.inode fs in
    let (unlinked, fs') = unlink_dir_entry t.parent t.name (free_file_blocks 12 0 target fs) in
    if not ok
    then (not_initialized, fs)
    else if t.inode == 0
    then (no_such_file, fs)
    else if not (bit_and (i_mode target) ext2_s_ifdir == 0)
    then (is_directory, fs)
    else if unlinked
    then (done, ext2_free_inode t.inode fs')
    else (not_removed, fs')

-- The loop of `ext2_cd` for `..`: the index of the last slash, at `i`.
unfoldable pub last_slash_from : List ℕ → (i last : ℕ) → ℕ
last_slash_from [] i last = last
last_slash_from (c ∷ path) i last = last_slash_from path (i + 1) (if c == slash then i else last)

-- The new text of `g_current_path`, and none where it does not fit the 256 bytes with its terminator,
-- which the source does not check.
unfoldable pub changed_path : (current path : List ℕ) → Option (List ℕ)
changed_path current path =
    let last_slash_idx = last_slash_from current 0 0 in
    let text =
      if strcmp path (slash ∷ [])
      then slash ∷ []
      else if strcmp path (b'.' ∷ b'.' ∷ [])
      then if last_slash_idx == 0 then slash ∷ [] else take last_slash_idx current
      else if strcmp path (b'.' ∷ [])
      then current
      else if peek path == slash
      then path
      else (if strcmp current (slash ∷ []) then current else current ++ slash ∷ []) ++ path in
    if ltb (length text) 256 then some text else none

unfoldable pub ext2_cd : List ℕ → Fs → Outcome × Fs
ext2_cd path fs₀ =
    let (ok, fs) = ext2_init fs₀ in
    let t = traverse_path path fs in
    if not ok
    then (not_initialized, fs)
    else if t.inode == 0
    then (no_such_file, fs)
    else if bit_and (i_mode (read_inode t.inode fs)) ext2_s_ifdir == 0
    then (not_directory, fs)
    else elim (changed_path fs.current_path path) [
      | none ↦ (overrun, fs)
      | some text ↦ (done, record fs { current_dir = t.inode; current_path = text })
    ]

-- The bytes of a name.
unfoldable pub name_at : (left at : ℕ) → Buffer → List ℕ
name_at zero at b = []
name_at (suc left) at b = b at ∷ name_at left (at + 1) b

-- The loop of `ext2_ls`: each entry's name, with its colour.
unfoldable pub list_entries : (fuel o : ℕ) → Buffer → List (ℕ × List ℕ)
list_entries zero o b = []
list_entries (suc fuel) o b =
    let rest = list_entries fuel (o + rec_len b o) b in
    let color = if file_type b o == 2 then 0x0d else 0x0f in
    if not (ltb o 1024) || inode_at b o == 0 || rec_len b o == 0
    then []
    else (color, name_at (name_len b o) (o + 8) b) ∷ rest

-- An empty path lists the current directory.
unfoldable pub ext2_ls : List ℕ → Fs → Outcome × List (ℕ × List ℕ)
ext2_ls path fs₀ =
    let (ok, fs) = ext2_init fs₀ in
    let target_inode = if is_empty path then fs.current_dir else (traverse_path path fs).inode in
    let b = read_block (i_block (read_inode target_inode fs) 0) fs in
    if not ok
    then (not_initialized, [])
    else if not (is_empty path) && target_inode == 0
    then (no_such_file, [])
    else (done, list_entries 1025 0 b)
