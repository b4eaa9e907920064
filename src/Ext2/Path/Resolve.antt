-- ===== src/Ext2/Path/Resolve.antt =====
-- What a path means: the names between its slashes are looked up one in the other.
use solstice_os.Base.{
  length-append, ℕ, zero, suc, ◌+◌, ◌<◌, ◌≤◌, ◌≡◌, ◌≢◌, refl, true, false, not, ◌||◌, if◌then◌else◌,
  ◌==◌, List, [], ◌∷◌, ◌++◌, length, arith,
}
use solstice_os.Text.Strings.{peek, strcmp}
use solstice_os.Ext2.Disk.{Fs}
use solstice_os.Ext2.Dir.{find_in_dir}
use solstice_os.Ext2.Path.{
  slash, split_component, skip_slashes, is_empty, ext2_ft_dir, Traversal, traversal, walk_path,
  traverse_path,
}

-- The characters of a file's name.
abbrev pub NoSlash : List ℕ → Type 0
NoSlash [] = Unit {0}
NoSlash (c ∷ name) = (c ≢ slash) × (c ≢ 0) × NoSlash name

-- The names of a path, all between 1 and 255 characters long.
abbrev pub AreNames : List (List ℕ) → Type 0
AreNames [] = Unit {0}
AreNames (name ∷ names) = NoSlash name × (0 < length name) × (length name ≤ 255) × AreNames names

-- A relative path, with a slash between each two names.
abbrev pub join : List ℕ → List (List ℕ) → List ℕ
join name [] = name
join name (next ∷ names) = name ++ slash ∷ join next names

-- The name is looked up in the directory `dir`, and what is found, when it is a directory, is the
-- place to look up the next one.
abbrev pub resolve : ℕ → List ℕ → List (List ℕ) → Fs → Traversal
resolve dir name [] fs = traversal (find_in_dir dir name fs).0 dir name
resolve dir name (next ∷ names) fs =
    let (inode, type) = find_in_dir dir name fs in
    if inode == 0 || not (type == ext2_ft_dir)
    then traversal 0 0 []
    else resolve inode next names fs

split_name_last :
    (left : ℕ) (name : List ℕ)
    → NoSlash name
    → length name ≤ left
    → split_component left name ≡ (name, [])
unfolding split_component
split_name_last zero [] plain short = refl
split_name_last zero (c ∷ name) plain short = absurd (omega arith)
split_name_last (suc left) [] plain short = refl
split_name_last (suc left) (c ∷ name) plain short =
    let other : (c == slash) ≡ false = ground (arith, plain.0) in
    rw (other, split_name_last left name plain.2 (omega arith)) refl

split_name :
    (left : ℕ) (name path : List ℕ)
    → NoSlash name
    → length name ≤ left
    → split_component left (name ++ slash ∷ path) ≡ (name, slash ∷ path)
unfolding split_component
split_name zero [] path plain short = refl
split_name zero (c ∷ name) path plain short = absurd (omega arith)
split_name (suc left) [] path plain short = refl
split_name (suc left) (c ∷ name) path plain short =
    let other : (c == slash) ≡ false = ground (arith, plain.0) in
    rw (other, split_name left name path plain.2 (omega arith)) refl

-- A path of names begins with a character of the first.
skip_slashes-join :
    (name : List ℕ) (names : List (List ℕ))
    → NoSlash name
    → 0 < length name
    → (skip_slashes (join name names) ≡ join name names) × (is_empty (join name names) ≡ false)
unfolding skip_slashes
skip_slashes-join [] names plain some_char = absurd (omega arith)
skip_slashes-join (c ∷ name) [] plain some_char =
    let other : (c == slash) ≡ false = ground (arith, plain.0) in (rw other refl, refl)
skip_slashes-join (c ∷ name) (next ∷ names) plain some_char =
    let other : (c == slash) ≡ false = ground (arith, plain.0) in (rw other refl, refl)

walk_path-join :
    (fuel : ℕ) (name : List ℕ) (names : List (List ℕ)) (dir : ℕ) (fs : Fs)
    → AreNames (name ∷ names)
    → length names < fuel
    → walk_path fuel (join name names) dir fs ≡ resolve dir name names fs
unfolding walk_path skip_slashes
walk_path-join zero name names dir fs is enough = absurd (omega arith)
walk_path-join (suc fuel) name [] dir fs (plain, some_char, short, is) enough =
    let split = split_name_last 255 name plain short in
    let start = skip_slashes-join name [] plain some_char in rw (split, start.1) refl
walk_path-join (suc fuel) name (next ∷ names) dir fs (plain, some_char, short, is) enough =
    let split = split_name 255 name (join next names) plain short in
    let start = skip_slashes-join name (next ∷ names) plain some_char in
    let start' = skip_slashes-join next names is.0 is.1 in
    let same : (slash == slash) ≡ true = refl in
    let deeper = walk_path-join fuel next names (find_in_dir dir name fs).0 fs is (omega arith) in
    rw (split, start.1, start'.0, start'.1, deeper) refl

length-join : (name : List ℕ) (names : List (List ℕ)) → length names ≤ length (join name names)
length-join name [] = omega arith
length-join name (next ∷ names) =
    omega (arith, length-append name (slash ∷ join next names), length-join next names)

-- Neither a path of names nor one with a slash before it is the root's.
join_not_root :
    (name : List ℕ) (names : List (List ℕ))
    → AreNames (name ∷ names)
    → ((peek (join name names) == slash) ≡ false)
      × (strcmp (join name names) (slash ∷ []) ≡ false)
      × (strcmp (slash ∷ join name names) (slash ∷ []) ≡ false)
unfolding strcmp
join_not_root [] names (plain, some_char, short, rest) = absurd (omega arith)
join_not_root (c ∷ name) [] (plain, some_char, short, rest) = ground (arith, plain.0, plain.1)
join_not_root (c ∷ name) (next ∷ names) (plain, some_char, short, rest) =
    ground (arith, plain.0, plain.1)

-- `ext2_traverse_path` looks the names of a path up one in the other: from the current directory, or
-- from the root if the path begins with a slash. The names are 1 to 255 characters other than a slash
-- and the terminator, and one slash stands between each two.
pub traverse_path-join :
    (name : List ℕ) (names : List (List ℕ)) (fs : Fs)
    → AreNames (name ∷ names)
    → (traverse_path (join name names) fs ≡ resolve fs.current_dir name names fs)
      × (traverse_path (slash ∷ join name names) fs ≡ resolve 2 name names fs)
unfolding traverse_path
traverse_path-join name names fs is =
    let start = join_not_root name names is in
    let few = length-join name names in
    (
      rw (start.0, start.1)
          (walk_path-join (length (join name names) + 1) name names fs.current_dir fs is
            (omega arith)),
      rw start.2
          (walk_path-join (length (slash ∷ join name names) + 1) name names 2 fs is (omega arith)),
    )
