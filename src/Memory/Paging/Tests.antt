-- ===== src/Memory/Paging/Tests.antt =====
-- Instances of the page tables' theorems on a machine with an empty top table and three frames.
use solstice_os.Memory.Paging.{init_paging}
use solstice_os.Memory.Paging.Sample.{
  frames_from, links, sample, sample_count, sample_levels, sample-IsPaged, length-frames_from,
}
use solstice_os.Memory.Paging.Ranges.{Needed, init_paging-Needed}
use Prim.Native.Nat.{bit_and}
use mathlib.Core.Bool.{false, true, true≢false}
use solstice_os.Base.{
  inr, suc, inl, ◌⊎◌, ap, ◌∙◌, sym, ◌≢◌, ℕ, ◌<◌, ◌≡◌, refl, List, [], ◌∷◌, arith, some,
}
use solstice_os.Base.Store.{update}
use solstice_os.Memory.Pmm.{Pmm}
use solstice_os.Memory.Paging.{address_mask, index_at, Vm, cell, map_page, maps_huge}
use solstice_os.Memory.Paging.Tables.{IsPaged, is_present}
use solstice_os.Memory.Paging.Walk.{walk_pdpt, translate, is_large, Below}
use solstice_os.Memory.Paging.Others.{map_page-others}
use solstice_os.Memory.Paging.Map.{map_page-translate}

abbrev fresh_pmm : Pmm
fresh_pmm = record {
  mem = update (update (λ (a : ℕ). 0) 0x200000 0x201000) 0x201000 0x202000;
  head = 0x200000;
  total = 3;
}

abbrev machine : Vm
machine = record { cr3 = 0x1000; pmm = fresh_pmm; flushed = [] }

abbrev three : List ℕ
three = 0x200000 ∷ 0x201000 ∷ 0x202000 ∷ []

abbrev levels : ℕ → ℕ
levels = update (λ (a : ℕ). 0) 0x1000 4

empty_entry : (t i : ℕ) → levels t ≢ 0 → i < 512 → fresh_pmm.mem (cell t i) ≡ 0
empty_entry t i some_level less = ground arith

fresh-IsPaged : IsPaged levels fresh_pmm three
unfolding maps_huge
fresh-IsPaged = record {
  free = record { chain = ground arith; counted = refl; small = omega arith };
  null = refl;
  frame = λ f found. ground arith;
  aligned = λ t some_level. ground arith;
  unique = λ t t' i i' k at_level at_level' less less' leads leads' same.
      absurd (true≢false (sym leads.0 ∙ ap is_present (empty_entry t i (omega arith) less)));
  child = λ t i k at_level less present no_huge.
      absurd (true≢false (sym present ∙ ap is_present (empty_entry t i (omega arith) less)));
  top = λ t i at_level less. ap maps_huge (empty_entry t i (omega arith) less);
}

map_page-translate_example :
    (pt : ℕ) × Below 4 levels fresh_pmm
      (map_page 0x12345678 0xABCDE000 machine).pmm
      pt
      (index_at 12 0x12345678)
    × (translate (map_page 0x12345678 0xABCDE000 machine).pmm.mem 0x1000 0x12345678
        ≡ some 0xABCDE678)
map_page-translate_example =
    map_page-translate levels machine three 0x12345678 0xABCDE000 fresh-IsPaged refl (omega arith)
      (unfold is_large in refl)

-- The first entry of the top table leads to a table whose first entry maps a page of 1 GB.
abbrev huge_machine : Vm
huge_machine = record {
  cr3 = 0x1000;
  pmm = record {
    mem = update (update (λ (a : ℕ). 0) 0x1000 0x2003) 0x2000 0x83;
    head = 0;
    total = 0;
  };
  flushed = [];
}

-- The same with the frames for three more tables.
abbrev mixed_pmm : Pmm
mixed_pmm = record fresh_pmm { mem = update (update fresh_pmm.mem 0x1000 0x2003) 0x2000 0x83 }

abbrev mixed_levels : ℕ → ℕ
mixed_levels = update levels 0x2000 3

abbrev mixed : Vm
mixed = record machine { pmm = mixed_pmm }

mixed_entry :
    (t i : ℕ)
    → mixed_levels t ≢ 0
    → i < 512
    → ((t ≡ 0x1000) × (i ≡ 0) × (mixed_pmm.mem (cell t i) ≡ 0x2003))
      ⊎ (((t ≡ 0x2000) × (i ≡ 0) × (mixed_pmm.mem (cell t i) ≡ 0x83))
          ⊎ (mixed_pmm.mem (cell t i) ≡ 0))
mixed_entry t i some_level less = ground arith

-- Only the first entry of the top table leads on.
mixed_leads :
    (t i k : ℕ)
    → mixed_levels t ≡ suc (suc k)
    → i < 512
    → is_present (mixed_pmm.mem (cell t i)) ≡ true
    → maps_huge (mixed_pmm.mem (cell t i)) ≡ false
    → (t ≡ 0x1000) × (i ≡ 0) × (mixed_pmm.mem (cell t i) ≡ 0x2003)
unfolding maps_huge
mixed_leads t i k at_level less present no_huge = elim (mixed_entry t i (omega arith) less) [
  | inl first ↦ first
  | inr (inl (_, _, e)) ↦ absurd (true≢false (sym (ap maps_huge e) ∙ no_huge))
  | inr (inr e) ↦ absurd (true≢false (sym present ∙ ap is_present e))
]

mixed-IsPaged : IsPaged mixed_levels mixed_pmm three
unfolding maps_huge
mixed-IsPaged = record {
  free = record { chain = ground arith; counted = refl; small = omega arith };
  null = refl;
  frame = λ f found. ground arith;
  aligned = λ t some_level. ground arith;
  child = λ t i k at_level less present no_huge.
      let (e, _, v) = mixed_leads t i k at_level less present no_huge in
      let four : 4 ≡ suc (suc k) = sym (ap mixed_levels e) ∙ at_level in
      ap (λ (q : ℕ). mixed_levels (bit_and q address_mask)) v
      ∙ (let three_left : 3 ≡ suc k = omega arith in three_left);
  unique = λ t t' i i' k at_level at_level' less less' leads leads' same.
      let (e, f, _) = mixed_leads t i k at_level less leads.0 leads.1 in
      let (e', f', _) = mixed_leads t' i' k at_level' less' leads'.0 leads'.1 in
      (e ∙ sym e', f ∙ sym f');
  top = λ t i at_level less. elim (mixed_entry t i (omega arith) less) [
    | inl (_, _, v) ↦ ap maps_huge v
    | inr (inl (e, _, _)) ↦
        let four : 3 ≡ 4 = sym (ap mixed_levels e) ∙ at_level in absurd (omega arith)
    | inr (inr v) ↦ ap maps_huge v
  ];
}

map_page-others_example :
    translate (map_page 0x8000000000 0xABCDE000 mixed).pmm.mem 0x1000 0x1234 ≡ some 0x1234
map_page-others_example =
    map_page-others mixed_levels mixed three 0x8000000000 0xABCDE000 0x1234 0x1234 mixed-IsPaged
      refl (omega arith) (unfold is_large in refl) (omega arith)
      (unfold translate walk_pdpt maps_huge in refl)

init_paging-Needed_example :
    let mem' = (init_paging 0x100000 0x101000 0xE0000000 1 4096 sample).pmm.mem in
    (Needed 0x100000 0x101000 0xE0000000 4096 0xE0000123
      → is_large links 0x1000 0xE0000123 ≡ false
      → translate mem' 0x1000 0xE0000123 ≡ some 0xE0000123)
    × ((r : ℕ)
        → is_large links 0x1000 0xE0000123 ≡ true
        → translate links 0x1000 0xE0000123 ≡ some r
        → translate mem' 0x1000 0xE0000123 ≡ some r)
init_paging-Needed_example =
    init_paging-Needed sample_levels sample (frames_from sample_count 0x4000000) 0x100000 0x101000
      0xE0000000 1 4096 0xE0000123 sample-IsPaged refl (omega arith) (omega arith) (omega arith)
      (omega (arith, length-frames_from sample_count 0x4000000)) (omega arith)
