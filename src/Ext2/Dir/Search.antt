-- ===== src/Ext2/Dir/Search.antt =====
-- What the walk of `ext2_find_in_dir` finds.
use solstice_os.Base.{
  length, [], ◌∷◌, ap, refl, ◌∙◌, ◌↔◌, ℕ, zero, suc, ◌+◌, ◌<◌, ◌≤◌, ◌≡◌, ◌≢◌, subst, inl, inr, true,
  false, ◌||◌, ltb, ◌==◌, arith, Bool-cases, List,
}
use solstice_os.Ext2.Disk.{Buffer}
use solstice_os.Ext2.Dir.{
  name_len, same_chars, inode_at, rec_len, name_matches, found, out_of_fuel, find_entry,
}

-- From the entry at `o` the walk gets to `p`, past live entries with other names.
pub data Reaches (b : Buffer) (name : List ℕ) (p : ℕ) : ℕ → Type 0 where
  here : Reaches b name p p
  skip :
      {o : ℕ}
      → o < 1024
      → inode_at b o ≢ 0
      → rec_len b o ≢ 0
      → name_matches b o name ≡ false
      → Reaches b name p (o + rec_len b o)
      → Reaches b name p o

-- The `n` characters from `at` on.
abbrev pub chars_at : Buffer → (at n : ℕ) → List ℕ
chars_at b at zero = []
chars_at b at (suc n) = b at ∷ chars_at b (at + 1) n

-- The entry at `o` has the name: its characters stand behind the header, and their number in it.
abbrev pub HasName : Buffer → (o : ℕ) → List ℕ → Type 0
HasName b o name = chars_at b (o + 8) (b (o + 6)) ≡ name

chars_at-length : (b : Buffer) (at n : ℕ) → length (chars_at b at n) ≡ n
chars_at-length b at zero = refl
chars_at-length b at (suc n) = ap suc (chars_at-length b (at + 1) n)

same_chars-chars_at :
    (b : Buffer) (at : ℕ) (name : List ℕ)
    → same_chars b at name ≡ true
    → chars_at b at (length name) ≡ name
unfolding same_chars
same_chars-chars_at b at [] e = refl
same_chars-chars_at b at (c ∷ name) e = elim (Bool-cases (b at == c)) [
  | inl same ↦
      let q : b at ≡ c = ground arith in
      rw q (ap (λ cs. c ∷ cs) (same_chars-chars_at b (at + 1) name (ground arith)))
  | inr other ↦ absurd (ground arith)
]

chars_at-same_chars : (b : Buffer) (at n : ℕ) → same_chars b at (chars_at b at n) ≡ true
unfolding same_chars
chars_at-same_chars b at zero = refl
chars_at-same_chars b at (suc n) =
    let same : (b at == b at) ≡ true = ground arith in rw same (chars_at-same_chars b (at + 1) n)

name_matches-HasName :
    (b : Buffer) (o : ℕ) (name : List ℕ) → (name_matches b o name ≡ true) ↔ HasName b o name
unfolding name_matches
name_matches-HasName b o name = (
  λ e. elim (Bool-cases (name_len b o == length name)) [
    | inl same ↦
        let q : name_len b o ≡ length name = ground arith in
        ap (chars_at b (o + 8)) q ∙ same_chars-chars_at b (o + 8) name (ground arith)
    | inr other ↦ absurd (ground arith)
  ],
  λ e.
      subst (λ (n : List ℕ). name_matches b o n ≡ true) e
        (let same : (name_len b o == length (chars_at b (o + 8) (name_len b o))) ≡ true =
            ground (arith, chars_at-length b (o + 8) (name_len b o)) in
          rw same (chars_at-same_chars b (o + 8) (name_len b o))),
)

-- From the entry at `o` the entries lead to the one at `p`, all before it live and with other names.
pub data Passes (b : Buffer) (name : List ℕ) (p : ℕ) : ℕ → Type 0 where
  arrived : Passes b name p p
  pass :
      {o : ℕ}
      → o < 1024
      → inode_at b o ≢ 0
      → rec_len b o ≢ 0
      → ¬ (HasName b o name)
      → Passes b name p (o + rec_len b o)
      → Passes b name p o

-- The first entry with the name from `o` on, which is live.
pub record IsFirst (b : Buffer) (name : List ℕ) (o p : ℕ) : Type 0 where
  pub reached : Passes b name p o
  pub inside : p < 1024
  pub live : inode_at b p ≢ 0
  pub some_len : rec_len b p ≢ 0
  pub named : HasName b p name

Passes-Reaches : (b : Buffer) (name : List ℕ) (p o : ℕ) → Passes b name p o → Reaches b name p o
Passes-Reaches b name p o arrived = here
Passes-Reaches b name p o (pass inside live some_len other rest) =
    skip inside live some_len
      (elim (Bool-cases (name_matches b o name)) [
        | inl hit ↦ absurd (other ((name_matches-HasName b o name).0 hit))
        | inr miss ↦ miss
      ])
      (Passes-Reaches b name p (o + rec_len b o) rest)

-- A walk has enough fuel for the 1024 bytes of a block.
pub find_entry_ends :
    (fuel : ℕ) (b : Buffer) (name : List ℕ) (o : ℕ)
    → 1024 ≤ fuel + o
    → find_entry (suc fuel) b name o ≢ out_of_fuel
unfolding find_entry
find_entry_ends zero b name o enough = ground arith
find_entry_ends (suc fuel) b name o enough =
    ground (arith, find_entry_ends fuel b name (o + rec_len b o))

pub find_entry_hit :
    (b : Buffer) (name : List ℕ) (p fuel o : ℕ)
    → 1024 ≤ fuel + o
    → Reaches b name p o
    → p < 1024
    → inode_at b p ≢ 0
    → rec_len b p ≢ 0
    → name_matches b p name ≡ true
    → find_entry (suc fuel) b name o ≡ found p
unfolding find_entry
find_entry_hit b name p fuel o enough here h live some_len hit = ground arith
find_entry_hit b name p zero o enough (skip i l s m r) h live some_len hit = absurd (omega arith)
find_entry_hit b name p (suc fuel) o enough (skip i l s m r) h live some_len hit =
    ground
      (arith, find_entry_hit b name p fuel (o + rec_len b o) (omega arith) r h live some_len hit)

skip-IsFirst :
    {b : Buffer} {name : List ℕ} {o p : ℕ}
    → o < 1024
    → inode_at b o ≢ 0
    → rec_len b o ≢ 0
    → ¬ (HasName b o name)
    → IsFirst b name (o + rec_len b o) p
    → IsFirst b name o p
skip-IsFirst inside live some_len miss f = record {
  reached = pass inside live some_len miss f.reached;
  inside = f.inside;
  live = f.live;
  some_len = f.some_len;
  named = f.named;
}

find_entry-IsFirst :
    (fuel : ℕ) (b : Buffer) (name : List ℕ) (o p : ℕ)
    → find_entry fuel b name o ≡ found p
    → IsFirst b name o p
unfolding find_entry
find_entry-IsFirst zero b name o p e = absurd (cc e)
find_entry-IsFirst (suc fuel) b name o p e = elim (Bool-cases (ltb o 1024)) [
  | inr past ↦ absurd (ground arith)
  | inl inside ↦ elim (Bool-cases (inode_at b o == 0 || rec_len b o == 0)) [
    | inl dead ↦ absurd (ground arith)
    | inr alive ↦ elim (Bool-cases (name_matches b o name)) [
      | inl hit ↦
          let same : o ≡ p = ground arith in
          subst (IsFirst b name o) same (record {
            reached = arrived;
            inside = ground arith;
            live = ground arith;
            some_len = ground arith;
            named = (name_matches-HasName b o name).0 hit;
          })
      | inr miss ↦
          skip-IsFirst (ground arith) (ground arith) (ground arith)
            (λ e. cc (miss, (name_matches-HasName b o name).1 e))
            (find_entry-IsFirst fuel b name (o + rec_len b o) p (ground arith))
    ]
  ]
]

-- `ext2_find_in_dir` finds an entry exactly when the walk over the live entries meets it as the first
-- whose name is the given list of characters, and the walk never runs out of its rounds.
pub find_entry-IsFirst_iff :
    (b : Buffer) (name : List ℕ) (p : ℕ)
    → ((find_entry 1025 b name 0 ≡ found p) ↔ IsFirst b name 0 p)
      × (find_entry 1025 b name 0 ≢ out_of_fuel)
find_entry-IsFirst_iff b name p = (
  (
    find_entry-IsFirst 1025 b name 0 p,
    λ f.
        find_entry_hit b name p 1024 0 (omega arith) (Passes-Reaches b name p 0 f.reached) f.inside
          f.live f.some_len ((name_matches-HasName b p name).1 f.named),
  ),
  find_entry_ends 1024 b name 0 (omega arith),
)
