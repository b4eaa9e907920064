-- ===== src/Memory/Paging/NewTable.antt =====
-- The memory after `get_or_create_table` of src/kernel/memory/memory.cpp has filled an empty entry `i` of
-- the table at `t` with the free frame `x`.
use Prim.Native.Nat.{bit_and, bit_or}
use solstice_os.Base.{
  subst, sym, inr, inl, Bool-cases, ◌⊎◌, ℕ, suc, ◌%◌, ◌^◌, ◌<◌, ◌≡◌, ◌≢◌, ap, ◌∙◌, true, false,
  arith, ◌==◌, ◌&&◌, List, ◌∷◌,
}
use solstice_os.Base.Store.{update}
use solstice_os.Memory.Pmm.{Pmm}
use solstice_os.Memory.Pmm.Chain.{has, Chain, IsFree, frame-update}
use solstice_os.Memory.Paging.{cell, zero_cells, maps_huge, address_mask}
use solstice_os.Memory.Paging.Entries.{flagged}
use solstice_os.Memory.Paging.Tables.{
  is_present, IsPaged, has-cell, zero_cells-out, zero_cells-in, zero_cells-Chain, cell_apart,
  page_apart,
}

module _ (level : ℕ → ℕ) (s : Pmm) (x : ℕ) (xs : List ℕ) (paged : IsPaged level s (x ∷ xs))
    (t i k : ℕ) (kind : level t ≡ suc (suc k)) (small : i < 512) where
  abbrev pub after_mem : ℕ → ℕ
  after_mem = update (zero_cells x 512 0 s.mem) (cell t i) (bit_or x 3)

  abbrev pub after_level : ℕ → ℕ
  after_level = update level x (suc k)

  pub frame_x : (level x ≡ 0) × (x % 4096 ≡ 0) × (x < 2 ^ 48)
  frame_x = paged.frame x (ground arith)

  aligned_t : t % 4096 ≡ 0
  aligned_t = paged.aligned t (ground arith)

  pub not_x : (p : ℕ) → level p ≢ 0 → p ≢ x
  not_x p some_level e = some_level (ap level e ∙ frame_x.0)

  -- The new table is empty.
  pub after-new : (j : ℕ) → j < 512 → after_mem (cell x j) ≡ 0
  after-new j less =
      let apart =
        cell_apart t i x j aligned_t frame_x.1 small less
          (inl (λ e. not_x t (λ z. ground arith) (sym e))) in
      ground (arith, apart, zero_cells-in x 512 0 j s.mem (omega arith) less)

  pub after-old :
      (p j : ℕ)
      → level p ≢ 0
      → j < 512
      → (p ≢ t) ⊎ (j ≢ i)
      → after_mem (cell p j) ≡ s.mem (cell p j)
  after-old p j some_level less other =
      let apart = cell_apart t i p j aligned_t (paged.aligned p some_level) small less other in
      let page =
        page_apart x p j frame_x.1 (paged.aligned p some_level) less (not_x p some_level) in
      ground (arith, apart, zero_cells-out x 512 0 s.mem (cell p j) page)

  pub after-IsFree :
      (s' : Pmm) → IsFree s' xs → s'.mem ≡ s.mem → IsFree (record s' { mem = after_mem }) xs
  after-IsFree s' f same = record {
    chain =
        frame-update (zero_cells x 512 0 s.mem) (cell t i) (bit_or x 3) s'.head xs
          (has-cell xs left_at_page t i aligned_t table_kept small)
          (zero_cells-Chain x 512 0 s.mem s'.head xs
            (λ j less. has-cell xs left_at_page x j frame_x.1 paged.free.chain.2 less)
            (subst (λ (m : ℕ → ℕ). Chain m s'.head xs) same f.chain));
    counted = f.counted;
    small = f.small;
  }
    where
      left_at_page : (f : ℕ) → has f xs ≡ true → f % 4096 ≡ 0
      left_at_page f found = (paged.frame f (ground arith)).1

      table_kept : has t xs ≡ false
      table_kept = elim (Bool-cases (has t xs)) [
        | inr no_frame ↦ no_frame
        | inl found ↦ absurd (ground (arith, paged.frame t))
      ]

  -- An entry afterwards is empty, the new one, or an old one.
  pub after-entry :
      (p j : ℕ)
      → after_level p ≢ 0
      → j < 512
      → ((p ≡ x) × (after_mem (cell p j) ≡ 0))
        ⊎ (((p ≡ t) × (j ≡ i) × (after_mem (cell p j) ≡ bit_or x 3))
            ⊎ ((p ≢ x) × (level p ≢ 0) × (after_mem (cell p j) ≡ s.mem (cell p j))))
  after-entry p j some_level less = elim (Bool-cases (p == x)) [
    | inl new ↦
        let e : p ≡ x = ground arith in
        inl (e, ap (λ (q : ℕ). after_mem (cell q j)) e ∙ after-new j less)
    | inr old ↦
        let was : level p ≢ 0 = ground arith in
        elim (Bool-cases ((p == t) && (j == i))) [
          | inl here ↦
              let e : p ≡ t = ground arith in
              let e' : j ≡ i = ground arith in inr (inl (e, e', ground arith))
          | inr elsewhere ↦
              let other : (p ≢ t) ⊎ (j ≢ i) = ground arith in
              inr (inr (ground arith, was, after-old p j was less other))
        ]
  ]

  pub after-flagged :
      (is_present (bit_or x 3) ≡ true)
      × (maps_huge (bit_or x 3) ≡ false)
      × (bit_and (bit_or x 3) address_mask ≡ x)
  unfolding maps_huge
  after-flagged = ground (arith, flagged x frame_x.1 frame_x.2)
