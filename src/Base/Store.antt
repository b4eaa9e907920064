-- ===== src/Base/Store.antt =====
-- Memory as a function from addresses to cells.
use solstice_os.Base.{ℕ, ◌==◌, if◌then◌else◌}

-- One cell is changed, and all others stay.
abbrev pub update {ℓ} : {A : Type ℓ} → (ℕ → A) → ℕ → A → ℕ → A
update f p v q = if q == p then v else f q
