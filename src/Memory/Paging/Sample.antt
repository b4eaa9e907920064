-- ===== src/Memory/Paging/Sample.antt =====
-- A machine with an empty top table and 24585 free frames from 64 MB on, enough for what
-- src/kernel/memory/memory.cpp maps at the boot of a small kernel.
use mathlib.Core.Bool.{true≢false}
use solstice_os.Base.{
  ℕ, zero, suc, ◌+◌, ◌*◌, ◌%◌, ◌<◌, ◌≤◌, ◌≡◌, ◌≢◌, refl, ap, sym, ◌∙◌, subst, true, false,
  if◌then◌else◌, leb, ◌==◌, List, [], ◌∷◌, length, arith, Bool-cases, inl, inr,
}
use solstice_os.Base.Store.{update}
use solstice_os.Memory.Pmm.{Pmm}
use solstice_os.Memory.Pmm.Chain.{has, Chain}
use solstice_os.Memory.Paging.{Vm, cell, maps_huge}
use solstice_os.Memory.Paging.Tables.{IsPaged, is_present}

pub frames_from : (n p : ℕ) → List ℕ
frames_from zero p = []
frames_from (suc n) p = p ∷ frames_from n (p + 4096)

abbrev pub sample_count : ℕ
sample_count = 24585

abbrev pub end : ℕ
end = 0x4000000 + 24585 * 4096

-- Each frame but the last one leads to the next.
pub links : ℕ → ℕ
links a = if a + 4096 == end then 0 else if leb 0x4000000 a then a + 4096 else 0

pub length-frames_from : (n p : ℕ) → length (frames_from n p) ≡ n
unfolding frames_from
length-frames_from zero p = refl
length-frames_from (suc n) p = omega (arith, length-frames_from n (p + 4096))

has-frames_from :
    (n p a : ℕ)
    → has a (frames_from n p) ≡ true
    → (p ≤ a) × (a < p + n * 4096) × (a % 4096 ≡ p % 4096)
unfolding frames_from
has-frames_from zero p a found = absurd (true≢false (sym found))
has-frames_from (suc n) p a found = elim (Bool-cases (a == p)) [
  | inl first ↦ ground arith
  | inr later ↦
      let (low, high, same) = has-frames_from n (p + 4096) a (ground arith) in
      (omega (arith, low), omega (arith, high), omega (arith, same))
]

links-Chain :
    (n p : ℕ) → 0x4000000 ≤ p → p + suc n * 4096 ≡ end → Chain links p (frames_from (suc n) p)
unfolding links frames_from
links-Chain zero p low last = (refl, omega arith, refl, ground (arith, last))
links-Chain (suc n) p low last =
    let on : links p ≡ p + 4096 = ground (arith, last) in
    let new : has p (frames_from (suc n) (p + 4096)) ≡ false =
      elim (Bool-cases (has p (frames_from (suc n) (p + 4096)))) [
        | inr out ↦ out
        | inl found ↦ absurd (omega (arith, (has-frames_from (suc n) (p + 4096) p found).0))
      ] in
    (
      refl,
      omega arith,
      new,
      subst (λ (q : ℕ). Chain links q (frames_from (suc n) (p + 4096))) (sym on)
          (links-Chain n (p + 4096) (omega arith) (omega (arith, last))),
    )

abbrev pub sample_pmm : Pmm
sample_pmm = record { mem = links; head = 0x4000000; total = sample_count }

abbrev pub sample : Vm
sample = record { cr3 = 0x1000; pmm = sample_pmm; flushed = [] }

abbrev pub sample_levels : ℕ → ℕ
sample_levels = update (λ (a : ℕ). 0) 0x1000 4

empty_entry : (t i : ℕ) → sample_levels t ≢ 0 → i < 512 → links (cell t i) ≡ 0
unfolding links
empty_entry t i some_level less = ground arith

pub sample-IsPaged : IsPaged sample_levels sample_pmm (frames_from sample_count 0x4000000)
unfolding maps_huge
sample-IsPaged = record {
  free = record {
    chain = links-Chain 24584 0x4000000 (omega arith) refl;
    counted = sym (length-frames_from sample_count 0x4000000);
    small = omega (arith, length-frames_from sample_count 0x4000000);
  };
  null = refl;
  frame = λ f found.
      let (low, high, same) = has-frames_from sample_count 0x4000000 f found in
      ground (arith, low, high, same);
  aligned = λ t some_level. ground arith;
  unique = λ t t' i i' k at_level at_level' less less' leads leads' same.
      absurd (true≢false (sym leads.0 ∙ ap is_present (empty_entry t i (omega arith) less)));
  child = λ t i k at_level less present no_huge.
      absurd (true≢false (sym present ∙ ap is_present (empty_entry t i (omega arith) less)));
  top = λ t i at_level less. ap maps_huge (empty_entry t i (omega arith) less);
}
