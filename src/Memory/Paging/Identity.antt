-- ===== src/Memory/Paging/Identity.antt =====
-- One page that `map_page` of src/kernel/memory/memory.cpp maps to itself, and what such pages add up to.
use mathlib.Core.Bool.{true≢false}
use Prim.Native.Nat.{bit_and}
use solstice_os.Base.{
  ℕ, ◌+◌, ◌/◌, ◌^◌, ◌<◌, ◌≤◌, ◌≡◌, ◌≢◌, ◌⊎◌, refl, ap, sym, ◌∙◌, Bool, true, false, ◌||◌, ◌==◌,
  Bool-cases, inl, inr, arith, List, length, some,
}
use solstice_os.Memory.Pmm.{Pmm}
use solstice_os.Memory.Paging.{bit_and, Vm, index_at, map_page}
use solstice_os.Memory.Paging.Entries.{and-address_mask}
use solstice_os.Memory.Paging.Tables.{IsPaged}
use solstice_os.Memory.Paging.Walk.{
  large_in_pd, large_in_pdpt, table_of, page_place, translate, is_large,
}
use solstice_os.Memory.Paging.Map.{map_page-translate}
use solstice_os.Memory.Paging.Large.{map_page_large}
use solstice_os.Memory.Paging.Others.{map_page-others, page_of}
use solstice_os.Memory.Paging.Range.{is_large-after, is_large-kept, map_page_page, map_page-cr3}

same_index :
    (v a : ℕ)
    → v / 4096 ≡ a / 4096
    → (index_at 39 v ≡ index_at 39 a)
      × (index_at 30 v ≡ index_at 30 a)
      × (index_at 21 v ≡ index_at 21 a)
      × (index_at 12 v ≡ index_at 12 a)
same_index v a same = (
  ap (λ n. bit_and n 0x1FF) (omega (arith, same)),
  ap (λ n. bit_and n 0x1FF) (omega (arith, same)),
  ap (λ n. bit_and n 0x1FF) (omega (arith, same)),
  ap (λ n. bit_and n 0x1FF) (omega (arith, same)),
)

-- A large page covers all of a page or none of it.
is_large_page :
    (mem : ℕ → ℕ) (cr3 v a : ℕ) → v / 4096 ≡ a / 4096 → is_large mem cr3 v ≡ is_large mem cr3 a
unfolding is_large large_in_pdpt large_in_pd
is_large_page mem cr3 v a same = let (i₄, i₃, i₂, _) = same_index v a same in rw (i₄, i₃, i₂) refl

-- A page that `map_page` maps to itself leads each of its addresses to itself.
map_page-identity :
    (level : ℕ → ℕ) (vm : Vm) (frames : List ℕ) (addr a : ℕ)
    → IsPaged level vm.pmm frames
    → level (table_of vm.cr3) ≡ 4
    → 3 ≤ length frames
    → a < 2 ^ 48
    → addr / 4096 ≡ a / 4096
    → is_large vm.pmm.mem vm.cr3 a ≡ false
    → translate (map_page addr addr vm).pmm.mem vm.cr3 a ≡ some a
map_page-identity level vm frames addr a paged kind room inside same no_large =
    let (i₄, i₃, i₂, i₁) = same_index addr a same in
    let place : table_of addr ≡ table_of a =
      omega (arith, and-address_mask addr, and-address_mask a, same) in
    let e = map_page_page addr a addr a i₄ i₃ i₂ i₁ place vm in
    let (_, _, walked) = map_page-translate level vm frames a a paged kind room no_large in
    let whole : page_place a a ≡ a = omega (arith, inside) in
    ap (λ (s : Pmm). translate s.mem vm.cr3 a) e ∙ walked ∙ ap some whole

-- What mapping pages to themselves does, for the pages whose addresses `covers` tells, with at most
-- `uses` frames: their addresses lead to themselves, where no large page covers them; all other
-- addresses that were mapped lead where they led; and the same addresses have large pages.
pub record Mapped (covers : ℕ → Bool) (uses : ℕ) (vm vm' : Vm) (frames : List ℕ) : Type 0 where
  pub cr3 : vm'.cr3 ≡ vm.cr3
  pub inside :
      (a : ℕ)
      → a < 2 ^ 48
      → covers a ≡ true
      → is_large vm.pmm.mem vm.cr3 a ≡ false
      → translate vm'.pmm.mem vm.cr3 a ≡ some a
  pub outside :
      (a r : ℕ)
      → a < 2 ^ 48
      → (covers a ≡ false) ⊎ (is_large vm.pmm.mem vm.cr3 a ≡ true)
      → translate vm.pmm.mem vm.cr3 a ≡ some r
      → translate vm'.pmm.mem vm.cr3 a ≡ some r
  pub large : (a : ℕ) → is_large vm'.pmm.mem vm.cr3 a ≡ is_large vm.pmm.mem vm.cr3 a
  pub level' : ℕ → ℕ
  pub frames' : List ℕ
  pub paged : IsPaged level' vm'.pmm frames'
  pub kind : level' (table_of vm.cr3) ≡ 4
  pub room : length frames ≤ length frames' + uses

pub Mapped-none :
    (covers : ℕ → Bool) (level : ℕ → ℕ) (vm : Vm) (frames : List ℕ)
    → IsPaged level vm.pmm frames
    → level (table_of vm.cr3) ≡ 4
    → ((a : ℕ) → a < 2 ^ 48 → covers a ≡ true → is_large vm.pmm.mem vm.cr3 a ≡ true)
    → (uses : ℕ) → Mapped covers uses vm vm frames
Mapped-none covers level vm frames paged kind none_left uses = record {
  cr3 = refl;
  inside =
      λ a less covered no_large. absurd (true≢false (sym (none_left a less covered) ∙ no_large));
  outside = λ a r less out e. e;
  large = λ a. refl;
  level' = level;
  frames' = frames;
  paged = paged;
  kind = kind;
  room = omega arith;
}

-- Pages that are mapped after others.
pub Mapped-after :
    (c d e : ℕ → Bool) (m n : ℕ) (vm vm₁ vm₂ : Vm) (frames : List ℕ)
    (first : Mapped c m vm vm₁ frames)
    → Mapped d n vm₁ vm₂ first.frames'
    → ((a : ℕ) → a < 2 ^ 48 → e a ≡ (c a || d a))
    → Mapped e (m + n) vm vm₂ frames
Mapped-after c d e m n vm vm₁ vm₂ frames first second both =
    let at : (mem : ℕ → ℕ) (a : ℕ) → translate mem vm₁.cr3 a ≡ translate mem vm.cr3 a =
      λ mem a. ap (λ (q : ℕ). translate mem q a) first.cr3 in
    let large_at : (mem : ℕ → ℕ) (a : ℕ) → is_large mem vm₁.cr3 a ≡ is_large mem vm.cr3 a =
      λ mem a. ap (λ (q : ℕ). is_large mem q a) first.cr3 in
    let on : (a r : ℕ)
        → a < 2 ^ 48
        → (d a ≡ false) ⊎ (is_large vm.pmm.mem vm.cr3 a ≡ true)
        → translate vm₁.pmm.mem vm.cr3 a ≡ some r
        → translate vm₂.pmm.mem vm.cr3 a ≡ some r =
      λ a r less out e'.
        sym (at vm₂.pmm.mem a)
        ∙ second.outside a r less
            (elim out [
              | inl apart ↦ inl apart
              | inr large ↦ inr (large_at vm₁.pmm.mem a ∙ first.large a ∙ large)
            ])
            (at vm₁.pmm.mem a ∙ e') in
    record {
      cr3 = second.cr3 ∙ first.cr3;
      inside = λ a less covered no_large. elim (Bool-cases (d a)) [
        | inl again ↦
            sym (at vm₂.pmm.mem a)
            ∙ second.inside a less again (large_at vm₁.pmm.mem a ∙ first.large a ∙ no_large)
        | inr before ↦
            on a a less (inl before) (first.inside a less (ground (arith, both a less)) no_large)
      ];
      outside = λ a r less out was.
          on a r less
            (elim out [ inl apart ↦ inl (ground (arith, both a less)) | inr large ↦ inr large ])
            (first.outside a r less
              (elim out [ inl apart ↦ inl (ground (arith, both a less)) | inr large ↦ inr large ])
              was);
      large = λ a.
          sym (large_at vm₂.pmm.mem a) ∙ second.large a ∙ large_at vm₁.pmm.mem a ∙ first.large a;
      level' = second.level';
      frames' = second.frames';
      paged = second.paged;
      kind = ap (λ (q : ℕ). second.level' (table_of q)) (sym first.cr3) ∙ second.kind;
      room = omega (arith, first.room, second.room);
    }

-- The addresses of a page.
abbrev pub in_page : (addr a : ℕ) → Bool
in_page addr a = a / 4096 == addr / 4096

pub map_page_self-Mapped :
    (level : ℕ → ℕ) (vm : Vm) (frames : List ℕ) (addr : ℕ)
    → IsPaged level vm.pmm frames
    → level (table_of vm.cr3) ≡ 4
    → 3 ≤ length frames
    → addr < 2 ^ 48
    → Mapped (in_page addr) 3 vm (map_page addr addr vm) frames
map_page_self-Mapped level vm frames addr paged kind room inside =
    elim (Bool-cases (is_large vm.pmm.mem vm.cr3 addr)) [
      | inl large ↦ rw (map_page_large addr addr vm large) (
          Mapped-none (in_page addr) level vm frames paged kind
            (λ a less covered. is_large_page vm.pmm.mem vm.cr3 a addr (ground arith) ∙ large) 3)
      | inr no_large ↦
          let (pt, after, _) =
            map_page-translate level vm frames addr addr paged kind room no_large in
          let other : (a : ℕ)
              → a < 2 ^ 48
              → (in_page addr a ≡ false) ⊎ (is_large vm.pmm.mem vm.cr3 a ≡ true)
              → page_of a ≢ page_of addr =
            λ a less out same.
              let page : a / 4096 ≡ addr / 4096 = omega (arith, same) in
              elim out [
                | inl apart ↦ ground arith
                | inr large ↦
                    true≢false (sym large ∙ is_large_page vm.pmm.mem vm.cr3 a addr page ∙ no_large)
              ] in
          record {
            cr3 = map_page-cr3 addr addr vm;
            inside = λ a less covered small.
                map_page-identity level vm frames addr a paged kind room less (ground arith) small;
            outside = λ a r less out was.
                map_page-others level vm frames addr addr a r paged kind room no_large
                  (other a less out) was;
            large = λ a. elim (Bool-cases (is_large vm.pmm.mem vm.cr3 a)) [
              | inl is_large' ↦
                  is_large-kept level vm.pmm (map_page addr addr vm).pmm frames paged pt
                    (index_at 12 addr) after a vm.cr3 kind is_large'
                  ∙ sym is_large'
              | inr no_large' ↦
                  is_large-after level vm.pmm (map_page addr addr vm).pmm frames paged pt
                    (index_at 12 addr) after a vm.cr3 kind no_large'
                  ∙ sym no_large'
            ];
            level' = after.level';
            frames' = after.frames';
            paged = after.paged;
            kind = after.levels _ (omega (arith, kind)) ∙ kind;
            room = omega (arith, after.counts, after.paged.free.counted, paged.free.counted);
          }
    ]
