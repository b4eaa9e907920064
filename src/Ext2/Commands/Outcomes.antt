-- ===== src/Ext2/Commands/Outcomes.antt =====
-- What the commands leave behind when they refuse, and the text of the current directory.
use solstice_os.Base.{
  length-append, ltb, some, ◌≤◌, ℕ, ◌+◌, ◌<◌, ◌≡◌, ◌≢◌, refl, ap, ◌∙◌, true, false, if◌then◌else◌,
  ◌==◌, List, [], ◌∷◌, ◌++◌, length, take, arith, Bool-cases, inl, inr,
}
use solstice_os.Text.Compare.{strcmp-eq_iff}
use mathlib.Core.List.{append_assoc}
use solstice_os.Text.Strings.{IsText, peek, strcmp}
use solstice_os.Ext2.Path.{slash}
use solstice_os.Ext2.Path.Resolve.{NoSlash}
use solstice_os.Ext2.Commands.{last_slash_from, changed_path}

-- The slash before the last name.
last_slash-NoSlash :
    (name : List ℕ) (i last : ℕ) → NoSlash name → last_slash_from name i last ≡ last
unfolding last_slash_from
last_slash-NoSlash [] i last plain = refl
last_slash-NoSlash (c ∷ name) i last plain =
    let other : (c == slash) ≡ false = ground (arith, plain.0) in
    rw other (last_slash-NoSlash name (i + 1) last plain.2)

last_slash-append :
    (current name : List ℕ) (i last : ℕ)
    → NoSlash name
    → last_slash_from (current ++ slash ∷ name) i last ≡ i + length current
unfolding last_slash_from
last_slash-append [] name i last plain = last_slash-NoSlash name (i + 1) i plain ∙ omega arith
last_slash-append (c ∷ current) name i last plain =
    last_slash-append current name (i + 1) (if c == slash then i else last) plain ∙ omega arith

take-append {ℓ} : {A : Type ℓ} (xs ys : List A) → take (length xs) (xs ++ ys) ≡ xs
take-append [] ys = refl
take-append (x ∷ xs) ys = ap (λ t. x ∷ t) (take-append xs ys)

-- A path as `ext2_cd` keeps it begins with a slash.
abbrev pub IsCurrent : List ℕ → Type 0
IsCurrent current = IsText current × (peek current ≡ slash)

NoSlash-IsText : (name : List ℕ) → NoSlash name → IsText name
NoSlash-IsText [] plain = tt
NoSlash-IsText (c ∷ name) plain = (plain.1, NoSlash-IsText name plain.2)

differs : (s₁ s₂ : List ℕ) → IsText s₁ → IsText s₂ → s₁ ≢ s₂ → strcmp s₁ s₂ ≡ false
differs s₁ s₂ t₁ t₂ ne = elim (Bool-cases (strcmp s₁ s₂)) [
  | inl same ↦ absurd (ne ((strcmp-eq_iff s₁ s₂ t₁ t₂).0 same))
  | inr other ↦ other
]

peek-NoSlash : (name : List ℕ) → NoSlash name → (peek name == slash) ≡ false
peek-NoSlash [] plain = refl
peek-NoSlash (c ∷ name) plain = ground (arith, plain.0)

-- The path to a directory by its name.
abbrev pub entered : (current name : List ℕ) → List ℕ
entered current name =
    (if strcmp current (slash ∷ []) then current else current ++ slash ∷ []) ++ name

enter :
    (current name : List ℕ)
    → NoSlash name
    → name ≢ b'.' ∷ []
    → name ≢ b'.' ∷ b'.' ∷ []
    → length (entered current name) < 256
    → changed_path current name ≡ some (entered current name)
unfolding changed_path
enter current name plain not_dot not_dots fits =
    let text = NoSlash-IsText name plain in
    let start = peek-NoSlash name plain in
    let root =
      differs name (slash ∷ []) text (omega arith, tt)
        (λ e. absurd (cc (start, ap (λ n. peek n == slash) e))) in
    let dot = differs name (b'.' ∷ []) text (omega arith, tt) not_dot in
    let dots = differs name (b'.' ∷ b'.' ∷ []) text (omega arith, (omega arith, tt)) not_dots in
    let room : ltb (length (entered current name)) 256 ≡ true = ground (arith, fits) in
    rw (root, dots, dot, start, room) refl

zero_add : (n : ℕ) → 0 + n ≡ n
zero_add n = omega arith

leave :
    (above name : List ℕ)
    → NoSlash name
    → length (if length above == 0 then slash ∷ [] else above) < 256
    → changed_path (above ++ slash ∷ name) (b'.' ∷ b'.' ∷ [])
      ≡ some (if length above == 0 then slash ∷ [] else above)
unfolding changed_path strcmp
leave above name plain fits =
    let room : ltb (length (if length above == 0 then slash ∷ [] else above)) 256 ≡ true =
      ground (arith, fits) in
    rw
      (
        last_slash-append above name 0 0 plain ∙ zero_add (length above),
        take-append above (slash ∷ name),
        room,
      )
      refl

entered-length :
    (current name : List ℕ) → length (entered current name) ≤ length current + 1 + length name
entered-length current name = elim (Bool-cases (strcmp current (slash ∷ []))) [
  | inl root ↦ rw root (omega (arith, length-append current name))
  | inr below ↦ rw below (
      omega (arith, length-append (current ++ slash ∷ []) name, length-append current (slash ∷ [])))
]

some_length :
    (current : List ℕ)
    → IsCurrent current
    → (if length current == 0 then slash ∷ [] else current) ≡ current
some_length [] is = absurd (omega (arith, is.1))
some_length (c ∷ current) is = ground arith

-- From a path that begins with a slash, going into a directory by a name and back by `..` leaves
-- `g_current_path` as it was. In between it is the path before, a slash and the name, but at the
-- root only the slash and the name. The name has no slash and is neither empty nor `.` nor `..`, and the
-- longer path fits the 256 bytes of the buffer.
pub changed_path-parent :
    (current name : List ℕ)
    → IsCurrent current
    → NoSlash name
    → 0 < length name
    → length current + 1 + length name < 256
    → name ≢ b'.' ∷ []
    → name ≢ b'.' ∷ b'.' ∷ []
    → let inside =
        (if strcmp current (slash ∷ []) then current else current ++ slash ∷ []) ++ name in
      (changed_path current name ≡ some inside)
      × (changed_path inside (b'.' ∷ b'.' ∷ []) ≡ some current)
changed_path-parent current name is plain some_char fits not_dot not_dots = (
  enter current name plain not_dot not_dots (omega (arith, entered-length current name, fits)),
  elim (Bool-cases (strcmp current (slash ∷ []))) [
    | inl root ↦
        let e = (strcmp-eq_iff current (slash ∷ []) is.0 (omega arith, tt)).0 root in
        rw (root, e) (leave [] name plain (omega arith))
    | inr below ↦
        let shape : (current ++ slash ∷ []) ++ name ≡ current ++ slash ∷ name =
          append_assoc current (slash ∷ []) name in
        let same = some_length current is in
        let room : length (if length current == 0 then slash ∷ [] else current) < 256 =
          rw same (omega (arith, fits)) in
        rw (below, shape) (leave current name plain room ∙ ap some same)
  ],
)
