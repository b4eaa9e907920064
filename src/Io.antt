-- ===== src/Io.antt =====
-- The instructions of src/include/io.h and `inw` of src/kernel/utils/utils.cpp.
use solstice_os.Base.{ℕ, List, [], ◌∷◌, ◌++◌}

-- The instructions on ports, which read and change the hardware's state.
pub record Ports (S : Type 0) : Type 0 where
  pub inb : ℕ → S → ℕ × S
  pub inw : ℕ → S → ℕ × S
  pub outb : ℕ → ℕ → S → S
  pub outw : ℕ → ℕ → S → S

-- The same ports with a record of what is written to them, as pairs of a port and a value.
abbrev pub logged : {S : Type 0} → Ports S → Ports (S × List (ℕ × ℕ))
logged io = record {
  inb = λ p s. let (v, t) = io.inb p s.0 in (v, (t, s.1));
  inw = λ p s. let (v, t) = io.inw p s.0 in (v, (t, s.1));
  outb = λ p v s. (io.outb p v s.0, s.1 ++ ((p, v) ∷ []));
  outw = λ p v s. (io.outw p v s.0, s.1 ++ ((p, v) ∷ []));
}
