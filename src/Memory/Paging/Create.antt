-- ===== src/Memory/Paging/Create.antt =====
-- A call of `get_or_create_table` of src/kernel/memory/memory.cpp, with the entry present and without.
use mathlib.Core.Bool.{true≢false}
use Prim.Native.Nat.{bit_and, bit_or}
use solstice_os.Base.{
  subst, sym, inr, inl, Bool-cases, ◌⊎◌, ℕ, suc, ◌<◌, ◌≡◌, ◌≢◌, refl, ap, ◌∙◌, true, false, arith,
  ◌==◌, ◌&&◌, List, [], ◌∷◌, length,
}
use solstice_os.Memory.Pmm.{Pmm, pmm_alloc}
use solstice_os.Memory.Pmm.Chain.{IsFree, alloc-cons}
use solstice_os.Memory.Paging.{cell, get_or_create_table, maps_huge, address_mask}
use solstice_os.Memory.Paging.Tables.{is_present, IsPaged, Stepped}
use solstice_os.Memory.Paging.NewTable

module _ (level : ℕ → ℕ) (s : Pmm) (x : ℕ) (xs : List ℕ) (paged : IsPaged level s (x ∷ xs))
    (t i k : ℕ) (kind : level t ≡ suc (suc k)) (small : i < 512) where
  abbrev after_mem : ℕ → ℕ
  after_mem = NewTable.after_mem level s x xs paged t i k kind small

  abbrev after_level : ℕ → ℕ
  after_level = NewTable.after_level level s x xs paged t i k kind small

  after-child :
      (p j n : ℕ)
      → after_level p ≡ suc (suc n)
      → j < 512
      → is_present (after_mem (cell p j)) ≡ true
      → maps_huge (after_mem (cell p j)) ≡ false
      → after_level (bit_and (after_mem (cell p j)) address_mask) ≡ suc n
  after-child p j n at_level less present no_huge =
      let some_level : after_level p ≢ 0 = ground arith in
      elim ((NewTable.after-entry level s x xs paged t i k kind small) p j some_level less) [
        | inl (_, e) ↦ absurd (true≢false (sym present ∙ ap is_present e))
        | inr (inl (e, _, e')) ↦
            let below : bit_and (after_mem (cell p j)) address_mask ≡ x =
              ap (λ (v : ℕ). bit_and v address_mask) e'
              ∙ (NewTable.after-flagged level s x xs paged t i k kind small).2 in
            let same : after_level t ≡ suc (suc n) = sym (ap after_level e) ∙ at_level in
            rw below
              (ground (arith, (NewTable.not_x level s x xs paged t i k kind small) t, same, kind))
        | inr (inr (old, was, e)) ↦
            let below =
              paged.child p j n (ground arith) less (sym (ap is_present e) ∙ present)
                (sym (ap maps_huge e) ∙ no_huge) in
            rw e (ground (arith, below, (NewTable.frame_x level s x xs paged t i k kind small)))
      ]

  -- An entry that leads on is the new one, or one that led on before, and not to the new table.
  after_leads :
      (p j n : ℕ)
      → after_level p ≡ suc (suc n)
      → j < 512
      → (is_present (after_mem (cell p j)) ≡ true) × (maps_huge (after_mem (cell p j)) ≡ false)
      → ((p ≡ t) × (j ≡ i) × (bit_and (after_mem (cell p j)) address_mask ≡ x))
        ⊎ ((level p ≡ suc (suc n))
            × (after_mem (cell p j) ≡ s.mem (cell p j))
            × (bit_and (after_mem (cell p j)) address_mask ≢ x))
  after_leads p j n at_level less leads =
      let some_level : after_level p ≢ 0 = ground arith in
      elim ((NewTable.after-entry level s x xs paged t i k kind small) p j some_level less) [
        | inl (_, e) ↦ absurd (true≢false (sym leads.0 ∙ ap is_present e))
        | inr (inl (e, f, g)) ↦ inl (
          e,
          f,
          ap (λ (v : ℕ). bit_and v address_mask) g
              ∙ (NewTable.after-flagged level s x xs paged t i k kind small).2,
        )
        | inr (inr (old, was, e)) ↦
            let kind' : level p ≡ suc (suc n) = ground arith in
            let below =
              paged.child p j n kind' less (sym (ap is_present e) ∙ leads.0)
                (sym (ap maps_huge e) ∙ leads.1) in
            inr (
              kind',
              e,
              λ same. omega (
                arith,
                below,
                (NewTable.frame_x level s x xs paged t i k kind small).0,
                ap level (sym (ap (λ (v : ℕ). bit_and v address_mask) e) ∙ same),
              ),
            )
      ]

  after_unique :
      (p p' j j' n : ℕ)
      → after_level p ≡ suc (suc n)
      → after_level p' ≡ suc (suc n)
      → j < 512
      → j' < 512
      → (is_present (after_mem (cell p j)) ≡ true) × (maps_huge (after_mem (cell p j)) ≡ false)
      → (is_present (after_mem (cell p' j')) ≡ true) × (maps_huge (after_mem (cell p' j')) ≡ false)
      → bit_and (after_mem (cell p j)) address_mask ≡ bit_and (after_mem (cell p' j')) address_mask
      → (p ≡ p') × (j ≡ j')
  after_unique p p' j j' n k k' less less' leads leads' same =
      elim (after_leads p j n k less leads) [
        | inl (e, f, g) ↦ elim (after_leads p' j' n k' less' leads') [
          | inl (e', f', g') ↦ (e ∙ sym e', f ∙ sym f')
          | inr (_, _, other) ↦ absurd (other (sym same ∙ g))
        ]
        | inr (l, e, other) ↦ elim (after_leads p' j' n k' less' leads') [
          | inl (_, _, g') ↦ absurd (other (same ∙ g'))
          | inr (l', e', _) ↦
              paged.unique p p' j j' n l l' less less'
                (sym (ap is_present e) ∙ leads.0, sym (ap maps_huge e) ∙ leads.1)
                (sym (ap is_present e') ∙ leads'.0, sym (ap maps_huge e') ∙ leads'.1)
                (sym (ap (λ (v : ℕ). bit_and v address_mask) e)
                  ∙ same
                  ∙ ap (λ (v : ℕ). bit_and v address_mask) e')
        ]
      ]

  after-top : (p j : ℕ) → after_level p ≡ 4 → j < 512 → maps_huge (after_mem (cell p j)) ≡ false
  unfolding maps_huge
  after-top p j at_level less =
      let some_level : after_level p ≢ 0 = ground arith in
      elim ((NewTable.after-entry level s x xs paged t i k kind small) p j some_level less) [
        | inl (_, e) ↦ ap maps_huge e
        | inr (inl (_, _, e)) ↦
            ap maps_huge e ∙ (NewTable.after-flagged level s x xs paged t i k kind small).1
        | inr (inr (old, _, e)) ↦ ap maps_huge e ∙ paged.top p j (ground arith) less
      ]

  after-IsPaged :
      (s' : Pmm)
      → IsFree s' xs
      → s'.mem ≡ s.mem
      → IsPaged after_level (record s' { mem = after_mem }) xs
  after-IsPaged s' f same = record {
    free = (NewTable.after-IsFree level s x xs paged t i k kind small) s' f same;
    null = ground (arith, paged.free.chain.1, paged.null);
    frame = λ a found. ground (arith, paged.frame a, paged.free.chain.2);
    aligned = λ p some_level.
        ground (arith, (NewTable.frame_x level s x xs paged t i k kind small).1, paged.aligned p);
    child = after-child;
    unique = after_unique;
    top = after-top;
  }

  here : after_mem (cell t i) ≡ bit_or x 3
  here = ground arith

  created :
      is_present (s.mem (cell t i)) ≡ false
      → (s' : Pmm) → IsFree s' xs
      → s'.mem ≡ s.mem
      → Stepped level s (x ∷ xs) t i k x (record s' { mem = after_mem }) after_level xs
  unfolding maps_huge
  created absent s' f same = record {
    paged = after-IsPaged s' f same;
    kind = ground arith;
    named = ap is_present here ∙ (NewTable.after-flagged level s x xs paged t i k kind small).0;
    small = ap maps_huge here ∙ (NewTable.after-flagged level s x xs paged t i k kind small).1;
    address =
        ap (λ (v : ℕ). bit_and v address_mask) here
        ∙ (NewTable.after-flagged level s x xs paged t i k kind small).2;
    levels = λ p some_level.
        ground (arith, (NewTable.not_x level s x xs paged t i k kind small) p some_level);
    others = (NewTable.after-old level s x xs paged t i k kind small);
    origin = inr (absent, (NewTable.after-new level s x xs paged t i k kind small));
    kept = λ p j some_level less present. elim (Bool-cases ((p == t) && (j == i))) [
      | inl same ↦
          let e : cell p j ≡ cell t i = ground arith in
          absurd (true≢false (sym present ∙ ap (λ (a : ℕ). is_present (s.mem a)) e ∙ absent))
      | inr elsewhere ↦
          (NewTable.after-old level s x xs paged t i k kind small) p j some_level less
            (ground arith)
    ];
    used = omega arith;
    counts = omega (arith, f.counted, paged.free.counted);
    large = λ p j high less huge.
        let some_level : after_level p ≢ 0 = omega (arith, high) in
        elim ((NewTable.after-entry level s x xs paged t i k kind small) p j some_level less) [
          | inl (_, e) ↦ absurd (true≢false (sym huge ∙ ap maps_huge e))
          | inr (inl (_, _, e)) ↦ absurd (
              true≢false (
                sym huge
                ∙ ap maps_huge e
                ∙ (NewTable.after-flagged level s x xs paged t i k kind small).1))
          | inr (inr (old, _, e)) ↦ (ground (arith, high), sym (ap maps_huge e) ∙ huge)
        ];
    fresh = λ p j high less present.
        let some_level : after_level p ≢ 0 = omega (arith, high) in
        elim ((NewTable.after-entry level s x xs paged t i k kind small) p j some_level less) [
          | inl (_, e) ↦ absurd (true≢false (sym present ∙ ap is_present e))
          | inr (inl (_, _, e)) ↦ inr (
              ap level (
                ap (λ (v : ℕ). bit_and v address_mask) e
                ∙ (NewTable.after-flagged level s x xs paged t i k kind small).2)
              ∙ (NewTable.frame_x level s x xs paged t i k kind small).0)
          | inr (inr (old, _, e)) ↦ inl (ground (arith, high), sym (ap is_present e) ∙ present)
        ];
  }

  get_or_create_table-absent :
      is_present (s.mem (cell t i)) ≡ false
      → get_or_create_table t i s ≡ (x, record (pmm_alloc s).1 { mem = after_mem })
  unfolding get_or_create_table
  get_or_create_table-absent absent =
      let (e, f, same) = alloc-cons s x xs paged.free in
      let some_frame : (x == 0) ≡ false = ground (arith, paged.free.chain.1) in
      let address : bit_and (after_mem (cell t i)) address_mask ≡ x =
        ap (λ (v : ℕ). bit_and v address_mask) here
        ∙ (NewTable.after-flagged level s x xs paged t i k kind small).2 in
      rw (absent, e, same, some_frame)
        (ap (λ (v : ℕ). (v, record (pmm_alloc s).1 { mem = after_mem })) address)

-- A call with a present entry that maps no large page, or with a free frame, leads to the table below
-- the entry.
pub get_or_create_table-Stepped :
    (level : ℕ → ℕ) (s : Pmm) (frames : List ℕ) (t i k : ℕ)
    → IsPaged level s frames
    → level t ≡ suc (suc k)
    → i < 512
    → maps_huge (s.mem (cell t i)) ≡ false
    → 0 < length frames
    → (level' : ℕ → ℕ) × (frames' : List ℕ) × Stepped level s frames t i k
        (get_or_create_table t i s).0
        (get_or_create_table t i s).1
        level'
        frames'
unfolding get_or_create_table
get_or_create_table-Stepped level s [] t i k paged kind small no_huge room = absurd (omega arith)
get_or_create_table-Stepped level s (x ∷ xs) t i k paged kind small no_huge room =
    elim (Bool-cases (is_present (s.mem (cell t i)))) [
      | inl present ↦ rw present (
        level,
        x ∷ xs,
        record {
          paged = paged;
          kind = paged.child t i k kind small present no_huge;
          named = present;
          small = no_huge;
          address = refl;
          levels = λ p some_level. refl;
          others = λ p j some_level less other. refl;
          origin = inl (present, refl, refl);
          kept = λ p j some_level less was. refl;
          used = omega arith;
          counts = omega arith;
          large = λ p j high less huge. (high, huge);
          fresh = λ p j high less now. inl (high, now);
        },
      )
      | inr absent ↦
          let (_, f, same) = alloc-cons s x xs paged.free in
          let result = get_or_create_table-absent level s x xs paged t i k kind small absent in
          (
            after_level level s x xs paged t i k kind small,
            xs,
            subst
                (λ (r : ℕ × Pmm).
                  Stepped level s (x ∷ xs) t i k r.0 r.1
                    (after_level level s x xs paged t i k kind small) xs)
                (sym result)
                (created level s x xs paged t i k kind small absent (pmm_alloc s).1 f same),
          )
    ]
