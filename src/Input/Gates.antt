-- ===== src/Input/Gates.antt =====
-- The descriptor tables: `setIdtGate` of src/kernel/idt/idt.cpp and `setGdtGate` of
-- src/kernel/gdt/gdt.cpp, with the entries of src/include/idt.h and src/include/gdt.h.
use solstice_os.Base.{◌≢◌, ◌⊎◌, ℕ, ◌+◌, ◌*◌, ◌/◌, ◌%◌, ◌^◌, ◌<◌, ◌≡◌, arith, if◌then◌else◌, ◌==◌}
use solstice_os.Base.Store.{update}

pub record IdtEntry : Type 0 where
  pub isr_low : ℕ
  pub selector : ℕ
  pub ist : ℕ
  pub flags : ℕ
  pub isr_mid : ℕ
  pub isr_high : ℕ
  pub reserved : ℕ

unfoldable pub set_idt_gate : (vector handler sel flags : ℕ) → (ℕ → IdtEntry) → ℕ → IdtEntry
set_idt_gate vector handler sel flags entries = update entries vector (record {
  isr_low = handler % 2 ^ 16;
  selector = sel;
  ist = 0;
  flags = flags;
  isr_mid = handler / 2 ^ 16 % 2 ^ 16;
  isr_high = handler / 2 ^ 32 % 2 ^ 32;
  reserved = 0;
})

-- The address that the processor reads from an entry.
abbrev pub handler_of : IdtEntry → ℕ
handler_of e = e.isr_low + 2 ^ 16 * e.isr_mid + 2 ^ 32 * e.isr_high

-- The processor reads back the 64-bit handler, selector and flags that `setIdtGate` was given, for
-- that vector, and all other entries are as before.
pub set_idt_gate_lem :
    (vector handler sel flags other : ℕ) (entries : ℕ → IdtEntry)
    → handler < 2 ^ 64
    → let entries' = set_idt_gate vector handler sel flags entries in
      (handler_of (entries' other)
        ≡ (if other == vector then handler else handler_of (entries other)))
      × ((entries' other).selector ≡ (if other == vector then sel else (entries other).selector))
      × ((entries' other).flags ≡ (if other == vector then flags else (entries other).flags))
unfolding set_idt_gate
set_idt_gate_lem vector handler sel flags other entries small =
    (ground arith, ground arith, ground arith)

pub record GdtEntry : Type 0 where
  pub limit : ℕ
  pub base_low : ℕ
  pub base_middle : ℕ
  pub access : ℕ
  pub flags : ℕ
  pub base_high : ℕ

-- The upper four bits of the limit, which belong in the low half of `flags`, are dropped.
unfoldable pub set_gdt_gate : (num base limit access gran : ℕ) → (ℕ → GdtEntry) → ℕ → GdtEntry
set_gdt_gate num base limit access gran entries = update entries num (record {
  base_low = base % 2 ^ 16;
  base_middle = base / 2 ^ 16 % 2 ^ 8;
  access = access;
  flags = gran;
  base_high = base / 2 ^ 24 % 2 ^ 8;
  limit = limit % 2 ^ 16;
})

-- The base and the 20-bit limit that the processor reads from an entry.
abbrev pub base_of : GdtEntry → ℕ
base_of e = e.base_low + 2 ^ 16 * e.base_middle + 2 ^ 24 * e.base_high

abbrev pub limit_of : GdtEntry → ℕ
limit_of e = e.limit + 2 ^ 16 * (e.flags % 16)

-- The processor reads back the low 32 bits of the base. As the limit, below 2 ^ 20, it reads the low
-- 16 bits with the low half of `gran` above them; this is another number unless that half holds the
-- limit's upper four bits.
pub set_gdt_gate_lem :
    (num base limit access gran : ℕ) (entries : ℕ → GdtEntry)
    → limit < 2 ^ 20
    → let e = set_gdt_gate num base limit access gran entries num in
      (base_of e ≡ base % 2 ^ 32)
      × (limit_of e ≡ limit % 2 ^ 16 + 2 ^ 16 * (gran % 16))
      × ((gran % 16 ≡ limit / 2 ^ 16) ⊎ (limit_of e ≢ limit))
unfolding set_gdt_gate
set_gdt_gate_lem num base limit access gran entries small =
    (ground arith, ground arith, ground arith)
