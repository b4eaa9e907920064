-- ===== src/Ext2/Path.antt =====
-- Paths: `ext2_traverse_path` of src/kernel/filesystem/ext2.cpp.
pub mod Resolve
use solstice_os.Base.{
  ℕ, zero, suc, ◌+◌, ◌-◌, ◌≡◌, Bool, true, false, not, ◌||◌, if◌then◌else◌, ◌==◌, Option, none,
  some, List, [], ◌∷◌, length,
}
use solstice_os.Text.Strings.{peek, tail, strcmp}
use solstice_os.Ext2.Disk.{Fs}
use solstice_os.Ext2.Dir.{find_in_dir}

abbrev pub slash : ℕ
slash = b'/'

-- The inner loop that copies a component: at most `left` characters, and what is behind them.
unfoldable pub split_component : (left : ℕ) → List ℕ → List ℕ × List ℕ
split_component zero path = ([], path)
split_component (suc left) [] = ([], [])
split_component (suc left) (c ∷ path) =
    let (comp, rest) = split_component left path in
    if c == slash then ([], c ∷ path) else (c ∷ comp, rest)

unfoldable pub skip_slashes : List ℕ → List ℕ
skip_slashes [] = []
skip_slashes (c ∷ path) = if c == slash then skip_slashes path else c ∷ path

abbrev pub is_empty : List ℕ → Bool
is_empty [] = true
is_empty (c ∷ path) = false

abbrev pub ext2_ft_dir : ℕ
ext2_ft_dir = 2

-- What `ext2_traverse_path` returns, with `*out_parent` and `out_name` as its callers set them up:
-- 0 and no text before the call.
pub record Traversal : Type 0 where
  pub inode : ℕ
  pub parent : ℕ
  pub name : List ℕ

abbrev pub traversal : (inode parent : ℕ) → List ℕ → Traversal
traversal i p n = record { inode = i; parent = p; name = n }

-- The outer loop. Each round takes a character off the path.
unfoldable pub walk_path : (fuel : ℕ) → List ℕ → (curr_inode : ℕ) → Fs → Traversal
walk_path zero path curr_inode fs = traversal curr_inode 0 []
walk_path (suc fuel) path curr_inode fs =
    let (comp, behind) = split_component 255 path in
    let rest = skip_slashes behind in
    let (next_inode, type) = find_in_dir curr_inode comp fs in
    let deeper = walk_path fuel rest next_inode fs in
    if is_empty path
    then traversal curr_inode 0 []
    else if is_empty rest
    then traversal next_inode curr_inode comp
    else if next_inode == 0 || not (type == ext2_ft_dir)
    then traversal 0 0 []
    else deeper

unfoldable pub traverse_path : List ℕ → Fs → Traversal
traverse_path path fs =
    let absolute = peek path == slash in
    let below = if absolute then tail path else path in
    if strcmp path (slash ∷ [])
    then traversal 2 2 (slash ∷ [])
    else walk_path (length path + 1) below (if absolute then 2 else fs.current_dir) fs
