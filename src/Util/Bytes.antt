-- ===== src/Util/Bytes.antt =====
-- `memset`, `memcpy`, `memmove` and `memcmp` of src/kernel/utils/utils.cpp. Memory is a function
-- from addresses to bytes, and source and destination lie in the same memory.
use native.Mathlib.Decide.{dec_lt}
use solstice_os.Base.{
  ℕ, zero, suc, ◌+◌, ◌-◌, ◌<◌, ◌≤◌, ◌≡◌, ◌≢◌, refl, ap, ◌⊎◌, inl, inr, ltb, leb, ◌==◌, arith,
  if◌then◌else◌, Bool-cases, ◌↔◌,
}
use solstice_os.Base.Store.{update}
use solstice_os.Base.Int.{ℤ, pos, sub_ℕ}

abbrev pub Bytes : Type 0
Bytes = ℕ → ℕ

-- The byte that is copied is read when its turn comes.
unfoldable pub memset : (dest val count : ℕ) → Bytes → Bytes
memset dest val zero m = m
memset dest val (suc count) m = memset (dest + 1) val count (update m dest val)

unfoldable pub memcpy : (dest src count : ℕ) → Bytes → Bytes
memcpy dest src zero m = m
memcpy dest src (suc count) m = memcpy (dest + 1) (src + 1) count (update m dest (m src))

-- The backward loop of `memmove`, which goes through the offsets `count - 1` down to 0.
unfoldable pub copy_backward : (dest src count : ℕ) → Bytes → Bytes
copy_backward dest src zero m = m
copy_backward dest src (suc count) m =
    copy_backward dest src count (update m (dest + count) (m (src + count)))

unfoldable pub memmove : (dest src count : ℕ) → Bytes → Bytes
memmove dest src count m =
    if ltb dest src then memcpy dest src count m else copy_backward dest src count m

-- The loop of `memcmp`: the difference of the first bytes that differ.
unfoldable pub memcmp : (s₁ s₂ count : ℕ) → Bytes → ℤ
memcmp s₁ s₂ zero m = pos 0
memcmp s₁ s₂ (suc count) m =
    let rest = memcmp (s₁ + 1) (s₂ + 1) count m in
    if m s₁ == m s₂ then rest else sub_ℕ (m s₁) (m s₂)

-- `out` holds at `dest` what `m` holds at `src`, for `count` bytes, and elsewhere what `m` holds.
pub record IsCopied (dest src count : ℕ) (m out : Bytes) : Type 0 where
  pub inside : (i : ℕ) → i < count → out (dest + i) ≡ m (src + i)
  pub outside : (a : ℕ) → (a < dest) ⊎ (dest + count ≤ a) → out a ≡ m a

-- `memset` gives all of the range the value, and changes no other byte.
pub memset_lem :
    (dest val count : ℕ) (m : Bytes) (a : ℕ)
    → memset dest val count m a
      ≡ (if leb dest a then if ltb a (dest + count) then val else m a else m a)
unfolding memset
memset_lem dest val zero m a = ground arith
memset_lem dest val (suc count) m a =
    ground (arith, memset_lem (dest + 1) val count (update m dest val) a)

first_offset : (dest src a : ℕ) → src + (dest - dest) ≡ src
first_offset dest src a = omega arith

-- The value at each address, when no byte of the source is overwritten before it is read.
memcpy_at :
    (dest src count : ℕ) (m : Bytes) (a : ℕ)
    → (dest ≤ src) ⊎ (src + count ≤ dest)
    → memcpy dest src count m a
      ≡ (if leb dest a then if ltb a (dest + count) then m (src + (a - dest)) else m a else m a)
unfolding memcpy
memcpy_at dest src zero m a apart = ground arith
memcpy_at dest src (suc count) m a apart =
    let ih = memcpy_at (dest + 1) (src + 1) count (update m dest (m src)) a (omega arith) in
    elim (dec_lt dest a) [
      | yes p ↦
          let next : src + 1 + (a - (dest + 1)) ≡ src + (a - dest) = omega arith in
          let other : src + (a - dest) ≢ dest ⊎ dest + suc count ≤ a = ground arith in
          ground (arith, ih, ap m next)
      | no p ↦ ground (arith, ih, ap m (first_offset dest src a))
    ]

copy_backward_at :
    (dest src count : ℕ) (m : Bytes) (a : ℕ)
    → src ≤ dest
    → copy_backward dest src count m a
      ≡ (if leb dest a then if ltb a (dest + count) then m (src + (a - dest)) else m a else m a)
unfolding copy_backward
copy_backward_at dest src zero m a le = ground arith
copy_backward_at dest src (suc count) m a le =
    let ih = copy_backward_at dest src count (update m (dest + count) (m (src + count))) a le in
    elim (dec_lt a (dest + count)) [
      | yes p ↦ ground (arith, ih)
      | no p ↦ elim (dec_lt (dest + count) a) [
        | yes q ↦ ground (arith, ih)
        | no q ↦
            let last : src + (a - dest) ≡ src + count = omega arith in ground (arith, ih, ap m last)
      ]
    ]

-- `memmove` copies the bytes that the source held before the call, also where source and destination
-- overlap, and changes no byte outside the destination.
pub memmove-IsCopied :
    (dest src count : ℕ) (m : Bytes) → IsCopied dest src count m (memmove dest src count m)
unfolding memmove
memmove-IsCopied dest src count m = record {
  inside = λ i h.
      let back : src + (dest + i - dest) ≡ src + i = omega arith in
      ground (arith, value (dest + i), ap m back);
  outside = λ a o. ground (arith, value a);
}
  where
    value :
        (a : ℕ)
        → memmove dest src count m a
          ≡ (if leb dest a then if ltb a (dest + count) then m (src + (a - dest)) else m a else m a)
    value a = elim (Bool-cases (ltb dest src)) [
      | inl forward ↦ rw forward (memcpy_at dest src count m a (inl (ground arith)))
      | inr backward ↦ rw backward (copy_backward_at dest src count m a (ground arith))
    ]

-- `memcmp` returns 0 exactly when the two ranges hold the same bytes.
pub memcmp-eq_iff :
    (s₁ s₂ count : ℕ) (m : Bytes)
    → (memcmp s₁ s₂ count m ≡ pos 0) ↔ ((i : ℕ) → i < count → m (s₁ + i) ≡ m (s₂ + i))
unfolding memcmp
memcmp-eq_iff s₁ s₂ zero m = (λ e i h. absurd (omega arith), λ h. refl)
memcmp-eq_iff s₁ s₂ (suc count) m =
    let ih = memcmp-eq_iff (s₁ + 1) (s₂ + 1) count m in
    (
      λ e i h. elim (dec_lt 0 i) [
        | yes p ↦
            let l : s₁ + 1 + (i - 1) ≡ s₁ + i = omega arith in
            let r : s₂ + 1 + (i - 1) ≡ s₂ + i = omega arith in
            let rest = ih.0 (ground (arith, e)) (i - 1) (omega arith) in
            ground (arith, rest, ap m l, ap m r)
        | no p ↦
            let l : s₁ + i ≡ s₁ = omega arith in
            let r : s₂ + i ≡ s₂ = omega arith in ground (arith, e, ap m l, ap m r)
      ],
      λ h.
          let l : s₁ + 0 ≡ s₁ = omega arith in
          let r : s₂ + 0 ≡ s₂ = omega arith in
          let tail = ih.1 λ i p.
            let l : s₁ + 1 + i ≡ s₁ + (i + 1) = omega arith in
            let r : s₂ + 1 + i ≡ s₂ + (i + 1) = omega arith in
            ground (arith, h (i + 1) (omega arith), ap m l, ap m r) in
          ground (arith, h 0 (omega arith), ap m l, ap m r, tail),
    )
