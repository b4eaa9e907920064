-- ===== src/Memory/Paging/Walk.antt =====
-- What the page tables of src/kernel/memory/memory.cpp say of an address, and `map_page` against it.
use Prim.Native.Nat.{bit_and, bit_or}
use solstice_os.Base.{
  ◌≤◌, ◌⊎◌, true, ℕ, ◌+◌, ◌*◌, ◌/◌, ◌%◌, ◌^◌, ◌<◌, ◌≡◌, ◌≢◌, refl, ap, ◌∙◌, sym, Bool, false, arith,
  not, ◌&&◌, ◌||◌, List, Option, none, some, if◌then◌else◌, inl, inr, Bool-cases,
}
use solstice_os.Base.Store.{update}
use solstice_os.Memory.Pmm.{Pmm}
use solstice_os.Memory.Pmm.Chain.{has, frame-update}
use solstice_os.Memory.Paging.{Vm, cell, maps_huge, address_mask, index_at, write_entry}
use solstice_os.Memory.Paging.Entries.{flagged, and-ones_9, and-address_mask}
use solstice_os.Memory.Paging.Tables.{is_present, IsPaged, has-cell, cell_apart}

abbrev pub table_of : ℕ → ℕ
table_of entry = bit_and entry address_mask

-- The place in a page of `2 ^ shift` bytes.
abbrev pub place : (shift entry virtual_address : ℕ) → ℕ
place shift entry virtual_address =
    table_of entry / 2 ^ shift * 2 ^ shift + virtual_address % 2 ^ shift

-- The processor's walk of the tables, from the last to the first.
unfoldable pub walk_pt : (ℕ → ℕ) → (pt virtual_address : ℕ) → Option ℕ
walk_pt mem pt v =
    let entry = mem (cell pt (index_at 12 v)) in
    if is_present entry then some (place 12 entry v) else none

unfoldable pub walk_pd : (ℕ → ℕ) → (pd virtual_address : ℕ) → Option ℕ
walk_pd mem pd v =
    let entry = mem (cell pd (index_at 21 v)) in
    if not (is_present entry)
    then none
    else if maps_huge entry
    then some (place 21 entry v)
    else walk_pt mem (table_of entry) v

unfoldable pub walk_pdpt : (ℕ → ℕ) → (pdpt virtual_address : ℕ) → Option ℕ
walk_pdpt mem pdpt v =
    let entry = mem (cell pdpt (index_at 30 v)) in
    if not (is_present entry)
    then none
    else if maps_huge entry
    then some (place 30 entry v)
    else walk_pd mem (table_of entry) v

-- Where an address leads, `none` for one that is not mapped.
unfoldable pub translate : (ℕ → ℕ) → (cr3 virtual_address : ℕ) → Option ℕ
translate mem cr3 v =
    let entry = mem (cell (table_of cr3) (index_at 39 v)) in
    if is_present entry then walk_pdpt mem (table_of entry) v else none

-- A large page covers the address.
unfoldable pub large_in_pd : (ℕ → ℕ) → (pd virtual_address : ℕ) → Bool
large_in_pd mem pd v = maps_huge (mem (cell pd (index_at 21 v)))

unfoldable pub large_in_pdpt : (ℕ → ℕ) → (pdpt virtual_address : ℕ) → Bool
large_in_pdpt mem pdpt v =
    let entry = mem (cell pdpt (index_at 30 v)) in
    maps_huge entry || (is_present entry && large_in_pd mem (table_of entry) v)

unfoldable pub is_large : (ℕ → ℕ) → (cr3 virtual_address : ℕ) → Bool
is_large mem cr3 v =
    let entry = mem (cell (table_of cr3) (index_at 39 v)) in
    is_present entry && large_in_pdpt mem (table_of entry) v

-- The place in the page that `map_page` is asked for.
abbrev pub page_place : (virtual_address physical_address : ℕ) → ℕ
page_place v p = p % 2 ^ 48 / 4096 * 4096 + v % 4096

-- An entry leads to a table.
abbrev pub Leads : (ℕ → ℕ) → (t i below : ℕ) → Type 0
Leads mem t i below =
    (is_present (mem (cell t i)) ≡ true)
    × (maps_huge (mem (cell t i)) ≡ false)
    × (table_of (mem (cell t i)) ≡ below)

-- After a change the tables are still a tree, with the tables of before. Only entries of tables of at
-- most the level `n` have changed, none that was present but in tables of pages, and of these only the
-- entry `index` of the table `last`. No entry begins to map a large page, and one that begins to lead to
-- a table leads to a new one. At most `n - 1` frames are used.
pub record Below (n : ℕ) (level : ℕ → ℕ) (s s' : Pmm) (last index : ℕ) : Type 0 where
  pub level' : ℕ → ℕ
  pub frames' : List ℕ
  pub paged : IsPaged level' s' frames'
  pub levels : (t : ℕ) → level t ≢ 0 → level' t ≡ level t
  pub others : (t j : ℕ) → n < level t → j < 512 → s'.mem (cell t j) ≡ s.mem (cell t j)
  pub kept :
      (t j : ℕ)
      → 1 < level t
      → j < 512
      → is_present (s.mem (cell t j)) ≡ true
      → s'.mem (cell t j) ≡ s.mem (cell t j)
  pub pages :
      (t j : ℕ)
      → level t ≡ 1
      → j < 512
      → (t ≢ last) ⊎ (j ≢ index)
      → s'.mem (cell t j) ≡ s.mem (cell t j)
  pub counts : s.total + 1 ≤ s'.total + n
  pub large :
      (p j : ℕ)
      → 1 < level' p
      → j < 512
      → maps_huge (s'.mem (cell p j)) ≡ true
      → (1 < level p) × (maps_huge (s.mem (cell p j)) ≡ true)
  pub fresh :
      (p j : ℕ)
      → 1 < level' p
      → j < 512
      → is_present (s'.mem (cell p j)) ≡ true
      → ((1 < level p) × (is_present (s.mem (cell p j)) ≡ true))
        ⊎ (level (bit_and (s'.mem (cell p j)) address_mask) ≡ 0)

pub index-small : (shift v : ℕ) → index_at shift v < 512
index-small shift v = omega (arith, and-ones_9 (v / 2 ^ shift))

-- A table that is no table of pages keeps its entries when one of a table of pages is written.
entry_kept :
    (level : ℕ → ℕ) (s : Pmm) (frames : List ℕ) (pt i value : ℕ)
    → IsPaged level s frames
    → level pt ≡ 1
    → i < 512
    → (t j : ℕ) → 1 < level t
    → j < 512
    → update s.mem (cell pt i) value (cell t j) ≡ s.mem (cell t j)
entry_kept level s frames pt i value paged kind small t j high less =
    let other : t ≢ pt = λ e. omega (arith, ap level e) in
    let apart =
      cell_apart pt i t j (paged.aligned pt (ground arith)) (paged.aligned t (ground arith)) small
        less (inl other) in
    ground (arith, apart)

table_kept :
    (level : ℕ → ℕ) (s : Pmm) (frames : List ℕ) (t : ℕ)
    → IsPaged level s frames
    → level t ≢ 0
    → has t frames ≡ false
table_kept level s frames t paged some_level = elim (Bool-cases (has t frames)) [
  | inr out_of ↦ out_of
  | inl found ↦ absurd (some_level (paged.frame t found).0)
]

pub write_entry-Below :
    (level : ℕ → ℕ) (vm : Vm) (frames : List ℕ) (pt v p : ℕ)
    → IsPaged level vm.pmm frames
    → level pt ≡ 1
    → Below 1 level vm.pmm (write_entry pt v p vm).pmm pt (index_at 12 v)
unfolding write_entry
write_entry-Below level vm frames pt v p paged kind =
    let small = index-small 12 v in
    let value = bit_or (bit_and p address_mask) 3 in
    let kept = entry_kept level vm.pmm frames pt (index_at 12 v) value paged kind small in
    record {
      level' = level;
      frames' = frames;
      paged = record {
        free = record {
          chain =
              frame-update vm.pmm.mem (cell pt (index_at 12 v)) value vm.pmm.head frames
                (has-cell frames (λ f found. (paged.frame f found).1) pt (index_at 12 v)
                  (paged.aligned pt (ground arith))
                  (table_kept level vm.pmm frames pt paged (ground arith)) small)
                paged.free.chain;
          counted = paged.free.counted;
          small = paged.free.small;
        };
        null = paged.null;
        frame = paged.frame;
        aligned = paged.aligned;
        unique = λ t t' j j' k at_level at_level' less less' leads leads' same.
            let e = kept t j (omega arith) less in
            let e' = kept t' j' (omega arith) less' in
            paged.unique t t' j j' k at_level at_level' less less'
              (sym (ap is_present e) ∙ leads.0, sym (ap maps_huge e) ∙ leads.1)
              (sym (ap is_present e') ∙ leads'.0, sym (ap maps_huge e') ∙ leads'.1)
              (sym (ap table_of e) ∙ same ∙ ap table_of e');
        child = λ t j k at_level less present no_huge. rw (kept t j (omega arith) less) (
            paged.child t j k at_level less
              (sym (ap is_present (kept t j (omega arith) less)) ∙ present)
              (sym (ap maps_huge (kept t j (omega arith) less)) ∙ no_huge));
        top = λ t j at_level less.
            ap maps_huge (kept t j (omega arith) less) ∙ paged.top t j at_level less;
      };
      levels = λ t some_level. refl;
      others = kept;
      kept = λ t j high less present. kept t j high less;
      pages = λ t j at_level less other.
          let apart =
            cell_apart pt (index_at 12 v) t j (paged.aligned pt (ground arith))
              (paged.aligned t (ground arith)) small less other in
          ground (arith, apart);
      counts = omega arith;
      large = λ t j high less huge. (high, sym (ap maps_huge (kept t j high less)) ∙ huge);
      fresh =
          λ t j high less present. inl (high, sym (ap is_present (kept t j high less)) ∙ present);
    }

pub write_entry-walk_pt :
    (vm : Vm) (pt v p : ℕ) → walk_pt (write_entry pt v p vm).pmm.mem pt v ≡ some (page_place v p)
unfolding write_entry walk_pt
write_entry-walk_pt vm pt v p =
    let page = bit_and p address_mask in
    let e : page ≡ p % 2 ^ 48 / 4096 * 4096 = and-address_mask p in
    let (present, _, address) = flagged page (omega (arith, e)) (omega (arith, e)) in
    ground (arith, present, address, e)
