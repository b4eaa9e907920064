-- ===== src/Ata/Words.antt =====
-- The words of a transfer in memory, for `read_disk` of src/kernel/utils/utils.cpp.
use solstice_os.Base.{
  ltb, ℕ, ◌+◌, ◌-◌, ◌*◌, ◌<◌, ◌≤◌, ◌≡◌, ◌⊎◌, ap, ◌∙◌, arith, inl, inr, Bool-cases,
}
use solstice_os.Base.Store.{update}

-- `out` has the words from number `first` on at `at`, and is `m` elsewhere.
pub record IsRead (words : ℕ → ℕ) (first count at : ℕ) (m out : ℕ → ℕ) : Type 0 where
  pub inside : (i : ℕ) → i < count → out (at + 2 * i) ≡ words (first + i)
  pub outside : (a : ℕ) → (a < at) ⊎ (at + 2 * count ≤ a) → out a ≡ m a

pub IsRead-one :
    (words : ℕ → ℕ) (first at value : ℕ) (m : ℕ → ℕ)
    → value ≡ words first
    → IsRead words first 1 at m (update m at value)
IsRead-one words first at value m e = record {
  inside = λ i less.
      let none_more : i ≡ 0 = omega arith in
      rw none_more (ground (arith, e, ap words (let z : first + 0 ≡ first = omega arith in z)));
  outside = λ a out. ground arith;
}

pub IsRead-append :
    (words : ℕ → ℕ) (first n k at : ℕ) (m out out' : ℕ → ℕ)
    → IsRead words first n at m out
    → IsRead words (first + n) k (at + 2 * n) out out'
    → IsRead words first (n + k) at m out'
IsRead-append words first n k at m out out' p q = record {
  inside = λ i less. elim (Bool-cases (ltb i n)) [
    | inl low ↦ q.outside (at + 2 * i) (inl (ground arith)) ∙ p.inside i (ground arith)
    | inr high ↦
        let place : at + 2 * i ≡ at + 2 * n + 2 * (i - n) = ground arith in
        let number : first + n + (i - n) ≡ first + i = ground arith in
        ap out' place ∙ q.inside (i - n) (ground arith) ∙ ap words number
  ];
  outside = λ a away. elim away [
    | inl below ↦ q.outside a (inl (omega arith)) ∙ p.outside a (inl below)
    | inr above ↦ q.outside a (inr (omega arith)) ∙ p.outside a (inr (omega arith))
  ];
}
