-- ===== src/Ext2/Dir/Entries.antt =====
-- Names and headers of directory entries in a changed block.
use solstice_os.Base.{
  ℕ, suc, ◌+◌, ◌/◌, ◌%◌, ◌^◌, ◌<◌, ◌≤◌, ◌≡◌, ◌⊎◌, refl, ap, ◌∙◌, inl, inr, true, false, ◌==◌, arith,
  Bool-cases, List, [], ◌∷◌, length, take,
}
use solstice_os.Ext2.Disk.{Buffer, write8}
use solstice_os.Ext2.Dir.{
  inode_at, rec_len, name_len, file_type, name_offset, same_chars, name_matches, write_name,
  put_headers,
}
use solstice_os.Ext2.Dir.Search.{Reaches, here, skip}

-- The characters of a name are bytes.
abbrev pub IsName : List ℕ → Type 0
IsName [] = Unit {0}
IsName (c ∷ name) = (c < 256) × IsName name

pub write_name_below :
    (b : Buffer) (at i : ℕ) (name : List ℕ) → i < at → write_name b at name i ≡ b i
unfolding write_name
write_name_below b at i [] h = refl
write_name_below b at i (c ∷ name) h =
    write_name_below (write8 b at c) (at + 1) i name (omega arith) ∙ ground arith

pub write_name-same_chars :
    (b : Buffer) (at : ℕ) (name : List ℕ)
    → IsName name
    → same_chars (write_name b at name) at name ≡ true
unfolding write_name same_chars
write_name-same_chars b at [] bytes = refl
write_name-same_chars b at (c ∷ name) bytes =
    let first : write_name (write8 b at c) (at + 1) name at ≡ c =
      write_name_below (write8 b at c) (at + 1) at name (omega arith) ∙ ground arith in
    let hit : (write_name (write8 b at c) (at + 1) name at == c) ≡ true = ground arith in
    rw hit (write_name-same_chars (write8 b at c) (at + 1) name bytes.1)

pub take-length {ℓ} : {A : Type ℓ} (xs : List A) → take (length xs) xs ≡ xs
take-length [] = refl
take-length (x ∷ xs) = ap (λ t. x ∷ t) (take-length xs)

-- Two blocks agree on the header and the name of the entry at `o`.
pub same_chars_agree :
    (b b' : Buffer) (at : ℕ) (name : List ℕ)
    → ((i : ℕ) → at ≤ i → i < at + length name → b' i ≡ b i)
    → same_chars b' at name ≡ same_chars b at name
unfolding same_chars
same_chars_agree b b' at [] agree = refl
same_chars_agree b b' at (c ∷ name) agree = ground (
  arith,
  agree at (omega arith) (omega arith),
  same_chars_agree b b' (at + 1) name (λ i p q. agree i (omega arith) (omega arith)),
)

-- Agreement on the name, where the entries' names are of the length looked for.
pub name_matches_agree :
    (b b' : Buffer) (o : ℕ) (name : List ℕ)
    → b' (o + 6) ≡ b (o + 6)
    → ((i : ℕ) → o + 8 ≤ i → i < o + 8 + name_len b o → b' i ≡ b i)
    → name_matches b' o name ≡ name_matches b o name
unfolding name_matches
name_matches_agree b b' o name len agree = elim (Bool-cases (name_len b o == length name)) [
  | inl same ↦
      let e : name_len b o ≡ length name = ground arith in
      let same' : (name_len b' o == length name) ≡ true = ground arith in
      rw (same, same')
        (same_chars_agree b b' (name_offset o) name (λ i p q. agree i p (omega (arith, e))))
  | inr other ↦
      let other' : (name_len b' o == length name) ≡ false = ground (arith, len) in
      rw (other, other') refl
]

-- Every entry that is passed holds its own name.
abbrev pub AllFit : {b : Buffer} {name : List ℕ} {p o : ℕ} → Reaches b name p o → Type 0
AllFit here = Unit {0}
AllFit {b} {o} (skip i l s m r) = (8 + name_len b o ≤ rec_len b o) × AllFit r

-- How many entries are passed.
abbrev pub steps : {b : Buffer} {name : List ℕ} {p o : ℕ} → Reaches b name p o → ℕ
steps here = 0
steps (skip i l s m r) = suc (steps r)

pub reached_le : {b : Buffer} {name : List ℕ} {p o : ℕ} → Reaches b name p o → o ≤ p
reached_le here = omega arith
reached_le (skip i l s m r) = omega (arith, reached_le r)

module _ (b : Buffer) (p size len n new_inode type : ℕ) (room : 8 ≤ size) where
  abbrev pub headers : Buffer
  headers = put_headers b p size len n new_inode type

  pub headers_other : (i : ℕ) → i < p + size → (i < p + 4) ⊎ (p + 6 ≤ i) → headers i ≡ b i
  unfolding put_headers
  headers_other i h o = ground arith

  pub headers_cut : size < 2 ^ 16 → rec_len headers p ≡ size
  unfolding put_headers
  headers_cut small = ground arith

  pub headers_bytes :
      (headers (p + size) ≡ new_inode % 256)
      × (headers (p + size + 1) ≡ new_inode / 256 % 256)
      × (headers (p + size + 2) ≡ new_inode / 65536 % 256)
      × (headers (p + size + 3) ≡ new_inode / 16777216 % 256)
  unfolding put_headers
  headers_bytes = (ground arith, ground arith, ground arith, ground arith)

  pub headers_inode : new_inode < 2 ^ 32 → inode_at headers (p + size) ≡ new_inode
  headers_inode small = omega (arith, headers_bytes)

  pub headers_rest :
      len < 2 ^ 17
      → (rec_len headers (p + size) ≡ len % 2 ^ 16)
        × (name_len headers (p + size) ≡ n % 256)
        × (file_type headers (p + size) ≡ type % 256)
  unfolding put_headers
  headers_rest small = ground arith
