-- ===== src/Text/Compare.antt =====
-- What the string tests decide.
use solstice_os.Base.{
  ap, suc, replicate, ℕ, ◌+◌, ◌≡◌, ◌≢◌, refl, ◌↔◌, ◌⊎◌, inl, inr, true, List, [], ◌∷◌, ◌++◌,
  if◌then◌else◌, ◌==◌, arith, Bool-cases, ◌<◌,
}
use solstice_os.Text.Strings.{peek, IsText, strcmp, strlen, starts_with, next_arg, strcpy}

-- `strcmp` returns true exactly on equal strings.
pub strcmp-eq_iff : (s₁ s₂ : List ℕ) → IsText s₁ → IsText s₂ → (strcmp s₁ s₂ ≡ true) ↔ (s₁ ≡ s₂)
unfolding strcmp
strcmp-eq_iff [] [] t₁ t₂ = (λ h. refl, λ h. refl)
strcmp-eq_iff [] (b ∷ s₂) t₁ t₂ = ground arith
strcmp-eq_iff (a ∷ s₁) [] t₁ t₂ = ground arith
strcmp-eq_iff (a ∷ s₁) (b ∷ s₂) t₁ t₂ = ground (arith, strcmp-eq_iff s₁ s₂ t₁.1 t₂.1)

-- `starts_with` returns true exactly when the string is the prefix with something behind it.
pub starts_with-append_iff :
    (str prefix : List ℕ)
    → IsText str
    → IsText prefix
    → (starts_with str prefix ≡ true) ↔ ((rest : List ℕ) × (str ≡ prefix ++ rest))
unfolding starts_with
starts_with-append_iff str [] t₁ t₂ = (λ h. (str, refl), λ h. refl)
starts_with-append_iff [] (p ∷ prefix) t₁ t₂ = (λ h. cc, λ h. cc h.1)
starts_with-append_iff (c ∷ str) (p ∷ prefix) t₁ t₂ =
    let ih = starts_with-append_iff str prefix t₁.1 t₂.1 in
    (
      λ h. let (rest, e) = ih.0 (ground arith) in (rest, ground (arith, h)),
      λ (rest, e).
          let same : c ≡ p = ground arith in
          let behind = ih.1 (rest, ground arith) in ground (arith, same, behind, t₁.0),
    )

-- `next_arg` skips all spaces at the front of a string, and nothing else.
pub next_arg_lem :
    (s : List ℕ) → (n : ℕ) × (s ≡ replicate n b' ' ++ next_arg s) × (peek (next_arg s) ≢ b' ')
unfolding next_arg
next_arg_lem [] = (0, refl, omega arith)
next_arg_lem (c ∷ s) = elim (Bool-cases (c == b' ')) [
  | inl space ↦
      let (n, e, end) = next_arg_lem s in
      let q : c ≡ b' ' = ground arith in (suc n, rw (space, q) (ap (λ t. b' ' ∷ t) e), rw space end)
  | inr other ↦ (0, rw other refl, rw other (ground arith))
]

-- What a buffer holds behind an offset: the characters and a NUL.
abbrev pub Holds : (ℕ → ℕ) → ℕ → List ℕ → Type 0
Holds buf at [] = buf at ≡ 0
Holds buf at (c ∷ s) = (buf at ≡ c) × Holds buf (at + 1) s

strcpy_below : (dest : ℕ → ℕ) (at i : ℕ) (src : List ℕ) → i < at → strcpy dest at src i ≡ dest i
unfolding strcpy
strcpy_below dest at i [] h = ground arith
strcpy_below dest at i (c ∷ src) h =
    ground (arith, strcpy_below (λ j. if j == at then c else dest j) (at + 1) i src)

strcpy_above :
    (dest : ℕ → ℕ) (at i : ℕ) (src : List ℕ) → at + strlen src < i → strcpy dest at src i ≡ dest i
unfolding strcpy strlen
strcpy_above dest at i [] h = ground arith
strcpy_above dest at i (c ∷ src) h =
    ground (arith, strcpy_above (λ j. if j == at then c else dest j) (at + 1) i src)

strcpy-Holds : (dest : ℕ → ℕ) (at : ℕ) (src : List ℕ) → Holds (strcpy dest at src) at src
unfolding strcpy
strcpy-Holds dest at [] = ground arith
strcpy-Holds dest at (c ∷ src) = (
  ground (arith, strcpy_below (λ j. if j == at then c else dest j) (at + 1) at src),
  strcpy-Holds (λ j. if j == at then c else dest j) (at + 1) src,
)

-- `strcpy` leaves the string and its NUL at the destination, and changes no byte before or behind
-- these `strlen(src) + 1` bytes.
pub strcpy_lem :
    (dest : ℕ → ℕ) (at : ℕ) (src : List ℕ)
    → Holds (strcpy dest at src) at src
      × ((i : ℕ) → (i < at) ⊎ (at + strlen src < i) → strcpy dest at src i ≡ dest i)
strcpy_lem dest at src = (
  strcpy-Holds dest at src,
  λ i outside. elim outside [
    | inl below ↦ strcpy_below dest at i src below
    | inr above ↦ strcpy_above dest at i src above
  ],
)
