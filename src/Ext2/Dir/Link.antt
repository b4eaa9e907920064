-- ===== src/Ext2/Dir/Link.antt =====
-- `ext2_link_dir_entry` and `ext2_find_in_dir` together.
use solstice_os.Base.{
  ℕ, zero, suc, ◌+◌, ◌-◌, ◌%◌, ◌^◌, ◌<◌, ◌≤◌, ◌≡◌, ◌≢◌, ◌⊎◌, refl, subst, ◌∙◌, inl, inr, true,
  false, ◌==◌, arith, List, length,
}
use solstice_os.Ext2.Disk.{Buffer}
use solstice_os.Ext2.Dir.{
  inode_at, rec_len, name_len, file_type, name_offset, name_matches, found, find_entry, true_size,
  write_name, append_entry, put_headers, linked, link_entry,
}
use solstice_os.Ext2.Dir.Search.{Reaches, here, skip, find_entry_hit}
use solstice_os.Ext2.Dir.Entries.{
  write_name_below, write_name-same_chars, take-length, name_matches_agree, reached_le,
  headers_other, headers_cut, headers_inode, headers_rest, IsName, AllFit, steps,
}

-- What a caller of `ext2_link_dir_entry` has: a directory whose last entry, at `p`, ends with the
-- block and has room for another with the name, all entries before it being live, well formed and
-- of other names.
pub record HasRoom (b : Buffer) (name : List ℕ) (p : ℕ) : Type 0 where
  pub reached : Reaches b name p 0
  pub fitting : AllFit reached
  pub few : steps reached < 100
  pub inside : p < 1024
  pub live : inode_at b p ≢ 0
  pub other : name_matches b p name ≡ false
  pub last : p + rec_len b p ≡ 1024
  pub room : true_size b p + 8 + length name ≤ rec_len b p

-- The loop of `ext2_link_dir_entry` gets to the last entry.
link_entry-Reaches :
    (b : Buffer) (name : List ℕ) (p left o new_inode type : ℕ) (r : Reaches b name p o)
    → steps r < left
    → p < 1024
    → true_size b p < rec_len b p
    → p + rec_len b p ≡ 1024
    → link_entry left b name new_inode type o ≡ linked (append_entry b p name new_inode type)
unfolding link_entry
link_entry-Reaches b name p zero o new_inode type r few inside room last = absurd (omega arith)
link_entry-Reaches b name p (suc left) o new_inode type here few inside room last = ground arith
link_entry-Reaches b name p (suc left) o new_inode type (skip i l s m r) few inside room last =
    ground (
      arith,
      reached_le r,
      link_entry-Reaches b name p left (o + rec_len b o) new_inode type r (omega arith) inside room
          last,
    )

-- A block that agrees with `b` on all bytes before `p + 4`, up to where entries reach: the same
-- entries are passed.
Reaches-agree :
    {b : Buffer} (b' : Buffer) {name : List ℕ} {p o : ℕ} (r : Reaches b name p o)
    → AllFit r
    → ((i : ℕ) → i < p + 4 → b' i ≡ b i)
    → Reaches b' name p o
Reaches-agree b' here fit agree = here
Reaches-agree {b} b' {name} {p} {o} (skip i l s m r) fit agree =
    let le = reached_le r in
    let inode : inode_at b' o ≡ inode_at b o = ground (
      arith,
      agree o (omega (arith, le, fit.0)),
      agree (o + 1) (omega (arith, le, fit.0)),
      agree (o + 2) (omega (arith, le, fit.0)),
      agree (o + 3) (omega (arith, le, fit.0)),
    ) in
    let len : rec_len b' o ≡ rec_len b o = ground (
      arith,
      agree (o + 4) (omega (arith, le, fit.0)),
      agree (o + 4 + 1) (omega (arith, le, fit.0)),
    ) in
    let same =
      name_matches_agree b b' o name (agree (o + 6) (omega (arith, le, fit.0)))
        (λ k q h. agree k (omega (arith, le, fit.0))) in
    skip i (rw inode l) (rw len s) (same ∙ m) (rw len (Reaches-agree b' r fit.1 agree))

Reaches-snoc :
    {b : Buffer} {name : List ℕ} {p o : ℕ}
    → Reaches b name p o
    → p < 1024
    → inode_at b p ≢ 0
    → rec_len b p ≢ 0
    → name_matches b p name ≡ false
    → Reaches b name (p + rec_len b p) o
Reaches-snoc here i l s m = skip i l s m here
Reaches-snoc (skip i l s m r) i' l' s' m' = skip i l s m (Reaches-snoc r i' l' s' m')

module _ (b : Buffer) (name : List ℕ) (p new_inode type : ℕ) (v : HasRoom b name p)
    (bytes : IsName name) (short : length name < 256) where
  abbrev linked_block : Buffer
  linked_block = append_entry b p name new_inode type

  true_size-ge : 8 + name_len b p ≤ true_size b p
  unfolding true_size
  true_size-ge = ground arith

  abbrev headed : Buffer
  headed =
      put_headers b p (true_size b p) (rec_len b p + 2 ^ 16 - true_size b p) (length name) new_inode
        type

  block_is : linked_block ≡ write_name headed (name_offset (p + true_size b p)) name
  unfolding append_entry
  block_is =
      let whole : length name % 2 ^ 8 ≡ length name = omega arith in
      rw (whole, take-length name) refl

  -- The new block before the new name.
  linked_before : (i : ℕ) → i < name_offset (p + true_size b p) → linked_block i ≡ headed i
  linked_before i h =
      rw block_is (write_name_below headed (name_offset (p + true_size b p)) i name h)

  linked_old : (i : ℕ) → i < p + true_size b p → (i < p + 4) ⊎ (p + 6 ≤ i) → linked_block i ≡ b i
  linked_old i h o =
      linked_before i (omega arith)
      ∙ headers_other b p (true_size b p) (rec_len b p + 2 ^ 16 - true_size b p) (length name)
          new_inode type (omega (arith, true_size-ge)) i h o

  abbrev new_at : ℕ
  new_at = p + true_size b p

  abbrev new_len : ℕ
  new_len = rec_len b p + 2 ^ 16 - true_size b p

  size_room : 8 ≤ true_size b p
  size_room = omega (arith, true_size-ge)

  linked_cut : rec_len linked_block p ≡ true_size b p
  linked_cut =
      let cut =
        headers_cut b p (true_size b p) new_len (length name) new_inode type size_room
          (omega (arith, v.room, v.last, v.inside)) in
      omega (
        arith,
        linked_before (p + 4) (omega arith),
        linked_before (p + 4 + 1) (omega (arith, size_room)),
        cut,
      )

  linked_inode : new_inode < 2 ^ 32 → inode_at linked_block new_at ≡ new_inode
  linked_inode small =
      let new =
        headers_inode b p (true_size b p) new_len (length name) new_inode type size_room small in
      omega (
        arith,
        linked_before new_at (omega arith),
        linked_before (new_at + 1) (omega arith),
        linked_before (new_at + 2) (omega arith),
        linked_before (new_at + 3) (omega arith),
        new,
      )

  linked_rest :
      (rec_len linked_block new_at ≡ rec_len b p - true_size b p)
      × (name_len linked_block new_at ≡ length name)
      × (file_type linked_block new_at ≡ type % 256)
  linked_rest =
      let rest =
        headers_rest b p (true_size b p) new_len (length name) new_inode type size_room
          (omega (arith, v.last)) in
      (
        omega (
          arith,
          linked_before (new_at + 4) (omega arith),
          linked_before (new_at + 4 + 1) (omega arith),
          rest.0,
          v.last,
          v.room,
        ),
        omega (arith, linked_before (new_at + 6) (omega arith), rest.1),
        omega (arith, linked_before (new_at + 7) (omega arith), rest.2),
      )

  linked_match : name_matches linked_block new_at name ≡ true
  unfolding name_matches
  linked_match =
      let same : (name_len linked_block new_at == length name) ≡ true =
        ground (arith, linked_rest.1) in
      rw same (rw block_is (write_name-same_chars headed (name_offset new_at) name bytes))

  linked_reached : Reaches linked_block name new_at 0
  linked_reached =
      let before =
        Reaches-agree linked_block v.reached v.fitting
          (λ i h. linked_old i (omega (arith, size_room)) (inl h)) in
      let inode : inode_at linked_block p ≡ inode_at b p = omega (
        arith,
        linked_old p (omega (arith, size_room)) (inl (omega arith)),
        linked_old (p + 1) (omega (arith, size_room)) (inl (omega arith)),
        linked_old (p + 2) (omega (arith, size_room)) (inl (omega arith)),
        linked_old (p + 3) (omega (arith, size_room)) (inl (omega arith)),
      ) in
      let same =
        name_matches_agree b linked_block p name
          (linked_old (p + 6) (omega (arith, size_room)) (inr (omega arith)))
          (λ k q h. linked_old k (omega (arith, true_size-ge)) (inr (omega arith))) in
      let past =
        Reaches-snoc before v.inside (rw inode v.live) (omega (arith, linked_cut, size_room))
          (same ∙ v.other) in
      subst (λ t. Reaches linked_block name (p + t) 0) linked_cut past

  -- Linking a name into a directory block makes `ext2_find_in_dir` find it, at an entry with the
  -- inode number and the type given. The name has at most 255 characters; the block's last entry
  -- is live, ends with the block and has room behind its own name for the new entry; and the fewer
  -- than 100 entries before it are live and well formed; none of them has the name already.
  pub find_entry-link_entry :
      0 < new_inode
      → new_inode < 2 ^ 32
      → type < 256
      → (b' : Buffer) × (link_entry 100 b name new_inode type 0 ≡ linked b')
        × (find_entry 1025 b' name 0 ≡ found new_at)
        × (inode_at b' new_at ≡ new_inode)
        × (file_type b' new_at ≡ type)
  find_entry-link_entry positive small byte = (
    linked_block,
    link_entry-Reaches b name p 100 0 new_inode type v.reached v.few v.inside
        (omega (arith, v.room)) v.last,
    find_entry_hit linked_block name new_at 1024 0 (omega arith) linked_reached
        (omega (arith, v.room, v.last)) (omega (arith, linked_inode small))
        (omega (arith, linked_rest.0, v.room)) linked_match,
    linked_inode small,
    linked_rest.2 ∙ omega arith,
  )
