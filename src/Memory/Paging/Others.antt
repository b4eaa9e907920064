-- ===== src/Memory/Paging/Others.antt =====
-- What `map_page` of src/kernel/memory/memory.cpp leaves of the other addresses.
use solstice_os.Base.{
  ℕ, suc, ◌/◌, ◌%◌, ◌^◌, ◌<◌, ◌≤◌, ◌≡◌, ◌≢◌, ◌⊎◌, refl, ap, sym, ◌∙◌, false, ◌&&◌, ◌==◌, Bool-cases,
  inl, inr, arith, List, length, some,
}
use solstice_os.Memory.Pmm.{Pmm}
use solstice_os.Memory.Paging.{Vm, cell, maps_huge, index_at, map_page}
use solstice_os.Memory.Paging.Entries.{and-ones_9}
use solstice_os.Memory.Paging.Tables.{is_present, IsPaged}
use solstice_os.Memory.Paging.Walk.{
  table_of, walk_pt, walk_pd, walk_pdpt, translate, is_large, Below, Leads, index-small,
}
use solstice_os.Memory.Paging.Map.{map_page-Mapped}

-- The page of an address among those of the 48-bit space.
abbrev pub page_of : ℕ → ℕ
page_of v = v / 4096 % 2 ^ 36

-- The four indices tell a page.
same_page :
    (v w : ℕ)
    → index_at 39 v ≡ index_at 39 w
    → index_at 30 v ≡ index_at 30 w
    → index_at 21 v ≡ index_at 21 w
    → index_at 12 v ≡ index_at 12 w
    → page_of v ≡ page_of w
same_page v w a b c d = omega (
  arith,
  a,
  b,
  c,
  d,
  and-ones_9 (v / 2 ^ 39),
  and-ones_9 (w / 2 ^ 39),
  and-ones_9 (v / 2 ^ 30),
  and-ones_9 (w / 2 ^ 30),
  and-ones_9 (v / 2 ^ 21),
  and-ones_9 (w / 2 ^ 21),
  and-ones_9 (v / 2 ^ 12),
  and-ones_9 (w / 2 ^ 12),
)

module _ (level : ℕ → ℕ) (s s' : Pmm) (frames : List ℕ) (paged : IsPaged level s frames)
    (pt index : ℕ) (after : Below 4 level s s' pt index) (w : ℕ) where
  -- The address is not the one whose entry has changed, for a table of pages.
  abbrev Apart1 : ℕ → Type 0
  Apart1 t = (t ≢ pt) ⊎ (index_at 12 w ≢ index)

  abbrev Apart2 : ℕ → Type 0
  Apart2 t = (t₁ : ℕ) → Leads s.mem t (index_at 21 w) t₁ → Apart1 t₁

  abbrev Apart3 : ℕ → Type 0
  Apart3 t = (t₂ : ℕ) → Leads s.mem t (index_at 30 w) t₂ → Apart2 t₂

  walk_pt-kept :
      (t r : ℕ) → level t ≡ 1 → Apart1 t → walk_pt s.mem t w ≡ some r → walk_pt s'.mem t w ≡ some r
  unfolding walk_pt
  walk_pt-kept t r kind apart e = rw (after.pages t (index_at 12 w) kind (index-small 12 w) apart) e

  walk_pd-kept :
      (t r : ℕ) → level t ≡ 2 → Apart2 t → walk_pd s.mem t w ≡ some r → walk_pd s'.mem t w ≡ some r
  unfolding walk_pd
  walk_pd-kept t r kind apart e =
      let i = index_at 21 w in
      let small = index-small 21 w in
      let entry = s.mem (cell t i) in
      elim (Bool-cases (is_present entry)) [
        | inr absent ↦ absurd (cc (rw absent at e))
        | inl present ↦
            let same = after.kept t i (omega (arith, kind)) small present in
            elim (Bool-cases (maps_huge entry)) [
              | inl huge ↦ rw (same, present, huge) (rw (present, huge) at e)
              | inr no_huge ↦
                  let kind' = paged.child t i 0 kind small present no_huge in
                  rw (same, present, no_huge)
                    (walk_pt-kept (table_of entry) r kind'
                      (apart (table_of entry) (present, no_huge, refl))
                      (rw (present, no_huge) at e))
            ]
      ]

  walk_pdpt-kept :
      (t r : ℕ)
      → level t ≡ 3
      → Apart3 t
      → walk_pdpt s.mem t w ≡ some r
      → walk_pdpt s'.mem t w ≡ some r
  unfolding walk_pdpt
  walk_pdpt-kept t r kind apart e =
      let i = index_at 30 w in
      let small = index-small 30 w in
      let entry = s.mem (cell t i) in
      elim (Bool-cases (is_present entry)) [
        | inr absent ↦ absurd (cc (rw absent at e))
        | inl present ↦
            let same = after.kept t i (omega (arith, kind)) small present in
            elim (Bool-cases (maps_huge entry)) [
              | inl huge ↦ rw (same, present, huge) (rw (present, huge) at e)
              | inr no_huge ↦
                  let kind' = paged.child t i 1 kind small present no_huge in
                  rw (same, present, no_huge)
                    (walk_pd-kept (table_of entry) r kind'
                      (apart (table_of entry) (present, no_huge, refl))
                      (rw (present, no_huge) at e))
            ]
      ]

  translate-kept :
      (cr3 r : ℕ)
      → level (table_of cr3) ≡ 4
      → ((t₃ : ℕ) → Leads s.mem (table_of cr3) (index_at 39 w) t₃ → Apart3 t₃)
      → translate s.mem cr3 w ≡ some r
      → translate s'.mem cr3 w ≡ some r
  unfolding translate
  translate-kept cr3 r kind apart e =
      let t = table_of cr3 in
      let i = index_at 39 w in
      let small = index-small 39 w in
      let entry = s.mem (cell t i) in
      elim (Bool-cases (is_present entry)) [
        | inr absent ↦ absurd (cc (rw absent at e))
        | inl present ↦
            let same = after.kept t i (omega (arith, kind)) small present in
            let no_huge = paged.top t i kind small in
            let kind' = paged.child t i 2 kind small present no_huge in
            rw (same, present)
              (walk_pdpt-kept (table_of entry) r kind'
                (apart (table_of entry) (present, no_huge, refl)) (rw present at e))
      ]

  -- An entry that led to a table still does.
  Leads-kept :
      (t i below k : ℕ)
      → level t ≡ suc (suc k)
      → i < 512
      → Leads s.mem t i below
      → Leads s'.mem t i below × (after.level' t ≡ suc (suc k)) × (level below ≡ suc k)
  Leads-kept t i below k kind small leads =
      let same = after.kept t i (omega (arith, kind)) small leads.0 in
      (
        (ap is_present same ∙ leads.0, ap maps_huge same ∙ leads.1, ap table_of same ∙ leads.2),
        after.levels t (omega (arith, kind)) ∙ kind,
        ap level (sym leads.2) ∙ paged.child t i k kind small leads.0 leads.1,
      )

-- Two ways from the top to the same entry of a table of pages are those of one page.
two_ways :
    (level : ℕ → ℕ) (s : Pmm) (frames : List ℕ) (t v w a₃ a₂ b₃ b₂ last : ℕ)
    → IsPaged level s frames
    → level t ≡ 4
    → Leads s.mem t (index_at 39 v) a₃
    → Leads s.mem a₃ (index_at 30 v) a₂
    → Leads s.mem a₂ (index_at 21 v) last
    → Leads s.mem t (index_at 39 w) b₃
    → Leads s.mem b₃ (index_at 30 w) b₂
    → Leads s.mem b₂ (index_at 21 w) last
    → index_at 12 v ≡ index_at 12 w
    → page_of v ≡ page_of w
two_ways level s frames t v w a₃ a₂ b₃ b₂ last paged kind p₄ p₃ p₂ q₄ q₃ q₂ same =
    let down : (t i below k : ℕ)
        → level t ≡ suc (suc k)
        → i < 512
        → Leads s.mem t i below
        → level below ≡ suc k =
      λ t i below k at less l. ap level (sym l.2) ∙ paged.child t i k at less l.0 l.1 in
    let at₃ = down t (index_at 39 v) a₃ 2 kind (index-small 39 v) p₄ in
    let at₃' = down t (index_at 39 w) b₃ 2 kind (index-small 39 w) q₄ in
    let at₂ = down a₃ (index_at 30 v) a₂ 1 at₃ (index-small 30 v) p₃ in
    let at₂' = down b₃ (index_at 30 w) b₂ 1 at₃' (index-small 30 w) q₃ in
    let (e₂, i₂) =
      paged.unique a₂ b₂ (index_at 21 v) (index_at 21 w) 0 at₂ at₂' (index-small 21 v)
        (index-small 21 w) (p₂.0, p₂.1) (q₂.0, q₂.1) (p₂.2 ∙ sym q₂.2) in
    let (e₃, i₃) =
      paged.unique a₃ b₃ (index_at 30 v) (index_at 30 w) 1 at₃ at₃' (index-small 30 v)
        (index-small 30 w) (p₃.0, p₃.1) (q₃.0, q₃.1) (p₃.2 ∙ e₂ ∙ sym q₃.2) in
    let (_, i₄) =
      paged.unique t t (index_at 39 v) (index_at 39 w) 2 kind kind (index-small 39 v)
        (index-small 39 w) (p₄.0, p₄.1) (q₄.0, q₄.1) (p₄.2 ∙ e₃ ∙ sym q₄.2) in
    same_page v w i₄ i₃ i₂ same

-- In a tree of page tables with three free frames, and if no large page covers the address, `map_page`
-- leaves the translation of the addresses of every other mapped page as it was.
pub map_page-others :
    (level : ℕ → ℕ) (vm : Vm) (frames : List ℕ) (virtual_address physical_address other place : ℕ)
    → IsPaged level vm.pmm frames
    → level (table_of vm.cr3) ≡ 4
    → 3 ≤ length frames
    → is_large vm.pmm.mem vm.cr3 virtual_address ≡ false
    → page_of other ≢ page_of virtual_address
    → translate vm.pmm.mem vm.cr3 other ≡ some place
    → translate (map_page virtual_address physical_address vm).pmm.mem vm.cr3 other ≡ some place
map_page-others level vm frames v p w r paged kind room no_large other e =
    let (pt, after, _, (pdpt, pd, lead₄, lead₃, lead₂)) =
      map_page-Mapped level vm frames v p paged kind room no_large in
    let pml4 = table_of vm.cr3 in
    let s' = (map_page v p vm).pmm in
    let kept = Leads-kept level vm.pmm s' frames paged pt (index_at 12 v) after w in
    translate-kept level vm.pmm s' frames paged pt (index_at 12 v) after w vm.cr3 r kind
      (λ t₃ l₄ t₂ l₃ t₁ l₂. elim (Bool-cases ((t₁ == pt) && (index_at 12 w == index_at 12 v))) [
        | inr apart ↦ ground arith
        | inl same ↦
            let last : t₁ ≡ pt = ground arith in
            let (q₄, kind', at₃) = kept pml4 (index_at 39 w) t₃ 2 kind (index-small 39 w) l₄ in
            let (q₃, _, at₂) = kept t₃ (index_at 30 w) t₂ 1 at₃ (index-small 30 w) l₃ in
            let (q₂, _, _) = kept t₂ (index_at 21 w) t₁ 0 at₂ (index-small 21 w) l₂ in
            absurd (
              other (
                two_ways after.level' s' after.frames' pml4 w v t₃ t₂ pdpt pd pt after.paged kind'
                  q₄ q₃ (q₂.0, q₂.1, q₂.2 ∙ last) lead₄ lead₃ lead₂ (ground arith)))
      ])
      e
