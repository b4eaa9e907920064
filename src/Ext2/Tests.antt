-- ===== src/Ext2/Tests.antt =====
-- Instances of the file system's theorems on a small disk.
use solstice_os.Base.{
  none, some, ◌*◌, ◌↔◌, ℕ, ◌+◌, ◌≡◌, ◌≢◌, true, [], ◌∷◌, get_elem?, arith, refl, if◌then◌else◌, ltb,
  ◌==◌,
}
use solstice_os.Ext2.Disk.{read_disk, Buffer, Disk, Fs, IsMounted, read_block}
use solstice_os.Ext2.Inode.{read_inode, write_inode, read_inode-write_inode}
use solstice_os.Ext2.Bitmap.{clear_bit, scan, alloc_bit}
use solstice_os.Ext2.Bitmap.Laws.{Allocated, alloc_bit-Allocated}
use solstice_os.Ext2.Dir.{
  file_type, inode_at, out_of_fuel, same_chars, true_size, found, find_entry, link_entry, linked,
  name_matches,
}
use solstice_os.Ext2.Dir.Search.{Reaches, here, skip, IsFirst, find_entry-IsFirst_iff}
use solstice_os.Ext2.Dir.Link.{HasRoom, find_entry-link_entry}
use solstice_os.Text.Strings.{strcmp}
use solstice_os.Ext2.Dir.{find_in_dir}
use solstice_os.Ext2.Path.{traverse_path, walk_path, skip_slashes, split_component}
use solstice_os.Ext2.Path.Resolve.{resolve, traverse_path-join}
use solstice_os.Ext2.Commands.{changed_path}
use solstice_os.Ext2.Commands.Outcomes.{changed_path-parent}

-- Block 3 holds the block bitmap, whose first eleven bits are set; blocks 5 and on hold inodes.
abbrev some_disk : Disk
some_disk a = if a == 3072 then 255 else if a == 3073 then 7 else 0

abbrev some_fs : Fs
some_fs = record {
  disk = some_disk;
  initialized = true;
  block_size = 1024;
  block_bitmap = 3;
  inode_bitmap = 4;
  inode_table = 5;
  current_dir = 2;
  current_path = [];
}

some_fs-IsMounted : IsMounted some_fs
some_fs-IsMounted = record { block_1024 = refl; bytes = λ a. ground arith }

abbrev some_block : Buffer
some_block i = if ltb i 4 then 65 else 66

read_inode-write_inode_example :
    read_inode 3 (write_inode 2 some_block some_fs) 1 ≡ read_inode 3 some_fs 1
read_inode-write_inode_example =
    read_inode-write_inode some_fs 2 3 some_block 1 some_fs-IsMounted (omega arith) (omega arith)
      (omega arith)

alloc_bit-Allocated_example : Allocated 3 some_fs (alloc_bit 3 some_fs)
alloc_bit-Allocated_example = alloc_bit-Allocated 3 some_fs some_fs-IsMounted (omega arith)

allocated_number : (alloc_bit 3 some_fs).0 ≡ 12
unfolding alloc_bit scan clear_bit read_block read_disk
allocated_number = refl

-- A directory block with `.` and `..`, of which the second takes the rest of the block.
abbrev dots : Buffer
dots i =
    elim (get_elem? {A = ℕ}
      (2 ∷ 0 ∷ 0 ∷ 0 ∷ 12 ∷ 0 ∷ 1 ∷ 2 ∷ 46 ∷ 0 ∷ 0 ∷ 0 ∷ 2 ∷ 0 ∷ 0 ∷ 0 ∷ 244 ∷ 3 ∷ 2 ∷ 2 ∷ 46 ∷ 46
        ∷ [])
      i) [ none ↦ 0 | some c ↦ c ]

find_entry-IsFirst_iff_example :
    ((find_entry 1025 dots (46 ∷ 46 ∷ []) 0 ≡ found 12) ↔ IsFirst dots (46 ∷ 46 ∷ []) 0 12)
    × (find_entry 1025 dots (46 ∷ 46 ∷ []) 0 ≢ out_of_fuel)
find_entry-IsFirst_iff_example = find_entry-IsFirst_iff dots (46 ∷ 46 ∷ []) 12

abbrev to_dots : Reaches dots (97 ∷ 98 ∷ []) 12 0
unfolding name_matches
to_dots = skip {o = 0} (omega arith) (omega arith) (omega arith) refl here

dots-HasRoom : HasRoom dots (97 ∷ 98 ∷ []) 12
unfolding name_matches same_chars true_size
dots-HasRoom = record {
  reached = to_dots;
  fitting = (omega arith, tt);
  few = omega arith;
  inside = omega arith;
  live = omega arith;
  other = refl;
  last = refl;
  room = omega arith;
}

find_entry-link_entry_example :
    (b' : Buffer) × (link_entry 100 dots (97 ∷ 98 ∷ []) 14 1 0 ≡ linked b')
    × (find_entry 1025 b' (97 ∷ 98 ∷ []) 0 ≡ found (12 + true_size dots 12))
    × (inode_at b' (12 + true_size dots 12) ≡ 14)
    × (file_type b' (12 + true_size dots 12) ≡ 1)
find_entry-link_entry_example =
    find_entry-link_entry dots (97 ∷ 98 ∷ []) 12 14 1 dots-HasRoom (omega arith, (omega arith, tt))
      (omega arith) (omega arith) (omega arith) (omega arith)

-- A root directory in block 20 with one file, `a` (inode 12).
abbrev root_disk : Disk
root_disk a =
    if a == 5 * 1024 + 128 + 40
    then 20
    else if a == 20 * 1024
    then 12
    else if a == 20 * 1024 + 5
    then 4
    else if a == 20 * 1024 + 6
    then 1
    else if a == 20 * 1024 + 7
    then 1
    else if a == 20 * 1024 + 8
    then 97
    else some_disk a

abbrev root_fs : Fs
root_fs = record some_fs { disk = root_disk }

traverse_path-join_example :
    (traverse_path (97 ∷ 47 ∷ 98 ∷ []) root_fs ≡ resolve 2 (97 ∷ []) ((98 ∷ []) ∷ []) root_fs)
    × (traverse_path (47 ∷ 97 ∷ 47 ∷ 98 ∷ []) root_fs
        ≡ resolve 2 (97 ∷ []) ((98 ∷ []) ∷ []) root_fs)
traverse_path-join_example = traverse_path-join (97 ∷ []) ((98 ∷ []) ∷ []) root_fs (
  (omega arith, omega arith, tt),
  omega arith,
  omega arith,
  ((omega arith, omega arith, tt), omega arith, omega arith, tt),
)

-- The file is found.
file_found : (traverse_path (97 ∷ []) root_fs).inode ≡ 12
unfolding traverse_path walk_path find_in_dir read_inode find_entry read_block read_disk strcmp
    skip_slashes split_component name_matches same_chars
file_found = refl

changed_path-parent_example :
    (changed_path (47 ∷ 97 ∷ []) (98 ∷ []) ≡ some (47 ∷ 97 ∷ 47 ∷ 98 ∷ []))
    × (changed_path (47 ∷ 97 ∷ 47 ∷ 98 ∷ []) (46 ∷ 46 ∷ []) ≡ some (47 ∷ 97 ∷ []))
unfolding strcmp
changed_path-parent_example =
    changed_path-parent (47 ∷ 97 ∷ []) (98 ∷ []) ((omega arith, (omega arith, tt)), refl)
      (omega arith, omega arith, tt) (omega arith) (omega arith) (λ e. cc e) (λ e. cc e)
