-- ===== src/Interrupts/Tables.antt =====
-- The descriptor tables as they are set up: `initIdt` of src/kernel/idt/idt.cpp, and `writeTSS` and `initGdt`
-- of src/kernel/gdt/gdt.cpp. The addresses of the tables, of the task state segment and of the assembly
-- stubs are parameters; the loads of the processor's registers are assembly.
use solstice_os.Base.{
  ◌∙◌, ap, ◌⊎◌, ℕ, zero, suc, ◌+◌, ◌*◌, ◌-◌, ◌/◌, ◌%◌, ◌^◌, ◌<◌, ◌≤◌, ◌≡◌, ◌≢◌, ◌==◌, arith, refl,
  Bool-cases, inl, inr,
}
use solstice_os.Base.Store.{update}
use solstice_os.Input.Gates.{
  IdtEntry, set_idt_gate, handler_of, set_idt_gate_lem, GdtEntry, set_gdt_gate, base_of, limit_of,
}

-- What `lidt` and `lgdt` read: the number of the table's bytes less 1, and its address.
pub record TablePointer : Type 0 where
  pub limit : ℕ
  pub base : ℕ

-- The loop of `initIdt` with `left` vectors to go from `vector` on.
unfoldable pub set_gates :
    (isr_stub_table : ℕ → ℕ) (left vector : ℕ) → (ℕ → IdtEntry) → ℕ → IdtEntry
set_gates isr_stub_table zero vector entries = entries
set_gates isr_stub_table (suc left) vector entries =
    set_gates isr_stub_table left (vector + 1)
      (set_idt_gate vector (isr_stub_table vector) 0x08 0x8E entries)

unfoldable pub init_idt :
    (idt_address : ℕ) (isr_stub_table : ℕ → ℕ) → (ℕ → IdtEntry) → TablePointer × (ℕ → IdtEntry)
init_idt idt_address isr_stub_table entries =
    (record { limit = 16 * 256 - 1; base = idt_address }, set_gates isr_stub_table 61 0 entries)

-- The task state segment.
pub record Tss : Type 0 where
  pub reserved0 : ℕ
  pub rsp0 : ℕ
  pub rsp1 : ℕ
  pub rsp2 : ℕ
  pub reserved1 : ℕ
  pub ist1 : ℕ
  pub ist2 : ℕ
  pub ist3 : ℕ
  pub ist4 : ℕ
  pub ist5 : ℕ
  pub ist6 : ℕ
  pub ist7 : ℕ
  pub reserved2 : ℕ
  pub reserved3 : ℕ
  pub iomap_base : ℕ

-- The segment with all its bytes 0.
abbrev pub cleared_tss : Tss
cleared_tss = record {
  reserved0 = 0;
  rsp0 = 0;
  rsp1 = 0;
  rsp2 = 0;
  reserved1 = 0;
  ist1 = 0;
  ist2 = 0;
  ist3 = 0;
  ist4 = 0;
  ist5 = 0;
  ist6 = 0;
  ist7 = 0;
  reserved2 = 0;
  reserved3 = 0;
  iomap_base = 0;
}

-- The 32-bit words of an entry's 8 bytes.
abbrev pub low_word : GdtEntry → ℕ
low_word e = e.limit + 2 ^ 16 * e.base_low

-- An entry by its two words.
abbrev pub entry_of_words : (low high : ℕ) → GdtEntry
entry_of_words low high = record {
  limit = low % 2 ^ 16;
  base_low = low / 2 ^ 16 % 2 ^ 16;
  base_middle = high % 2 ^ 8;
  access = high / 2 ^ 8 % 2 ^ 8;
  flags = high / 2 ^ 16 % 2 ^ 8;
  base_high = high / 2 ^ 24 % 2 ^ 8;
}

-- `sizeof(tss_entry)`, 4 bytes, 12 fields of 8 and two of 2.
abbrev pub tss_size : ℕ
tss_size = 104

unfoldable pub write_tss : (tss_address num ss0 esp0 : ℕ) → (ℕ → GdtEntry) → (ℕ → GdtEntry) × Tss
write_tss tss_address num ss0 esp0 entries =
    let entries' = set_gdt_gate num tss_address (tss_size - 1) 0x89 0x00 entries in
    (
      update entries' (num + 1) (entry_of_words (tss_address / 2 ^ 32 % 2 ^ 32) 0),
      record cleared_tss { rsp0 = esp0 },
    )

unfoldable pub init_gdt :
    (gdt_address tss_address : ℕ) → (ℕ → GdtEntry) → TablePointer × (ℕ → GdtEntry) × Tss
init_gdt gdt_address tss_address entries =
    let e₀ = set_gdt_gate 0 0 0 0 0 entries in
    let e₁ = set_gdt_gate 1 0 0xFFFFF 0x9A 0xA0 e₀ in
    let e₂ = set_gdt_gate 2 0 0xFFFFF 0x92 0xA0 e₁ in
    let e₃ = set_gdt_gate 3 0 0xFFFFF 0xFA 0xA0 e₂ in
    let e₄ = set_gdt_gate 4 0 0xFFFFF 0xF2 0xA0 e₃ in
    let (e₅, tss) = write_tss tss_address 5 0x10 0x90000 e₄ in
    (record { limit = 8 * 7 - 1; base = gdt_address }, e₅, tss)

-- The 64-bit base that the processor reads from the two slots of a task state segment.
abbrev pub tss_base_of : (num : ℕ) → (ℕ → GdtEntry) → ℕ
tss_base_of num entries = base_of (entries num) + 2 ^ 32 * low_word (entries (num + 1))

write_tss_lem :
    (tss_address num ss0 esp0 : ℕ) (entries : ℕ → GdtEntry)
    → tss_address < 2 ^ 64
    → let entries' = (write_tss tss_address num ss0 esp0 entries).0 in
      (tss_base_of num entries' ≡ tss_address)
      × (limit_of (entries' num) ≡ 103)
      × ((entries' num).access ≡ 0x89)
      × ((other : ℕ) → other ≢ num → other ≢ num + 1 → entries' other ≡ entries other)
unfolding write_tss set_gdt_gate
write_tss_lem tss_address num ss0 esp0 entries small =
    (ground arith, ground arith, ground arith, λ other a b. ground arith)

-- A gate for the kernel's code segment at 0x08 that is present and masks interrupts.
abbrev pub IsGate : IdtEntry → (stub : ℕ) → Type 0
IsGate e stub = (handler_of e ≡ stub) × (e.selector ≡ 0x08) × (e.flags ≡ 0x8E)

module _ (stubs : ℕ → ℕ) where
  set_gates-outside :
      (left vector v : ℕ) (entries : ℕ → IdtEntry)
      → (v < vector) ⊎ (vector + left ≤ v)
      → set_gates stubs left vector entries v ≡ entries v
  unfolding set_gates set_idt_gate
  set_gates-outside zero vector v entries out = refl
  set_gates-outside (suc left) vector v entries out =
      set_gates-outside left (vector + 1) v (set_idt_gate vector (stubs vector) 0x08 0x8E entries)
        (ground arith)
      ∙ ground arith

  set_gates-IsGate :
      (left vector v : ℕ) (entries : ℕ → IdtEntry)
      → ((i : ℕ) → stubs i < 2 ^ 64)
      → vector ≤ v
      → v < vector + left
      → IsGate (set_gates stubs left vector entries v) (stubs v)
  unfolding set_gates
  set_gates-IsGate zero vector v entries small from to = absurd (omega arith)
  set_gates-IsGate (suc left) vector v entries small from to =
      let entries' = set_idt_gate vector (stubs vector) 0x08 0x8E entries in
      elim (Bool-cases (v == vector)) [
        | inl here ↦
            let q : v ≡ vector = ground arith in
            let (a, b, c) =
              set_idt_gate_lem vector (stubs vector) 0x08 0x8E v entries (small vector) in
            rw (set_gates-outside left (vector + 1) v entries' (inl (omega arith)))
              (ground (arith, a, ap stubs q), ground (arith, b), ground (arith, c))
        | inr past ↦
            set_gates-IsGate left (vector + 1) v entries' small (ground arith) (omega arith)
      ]

  -- After `initIdt` the processor reads from the gates 0 to 60 the address of their stub, the selector
  -- 0x08 and the flags 0x8E; the other 195 gates are as before; and the limit is the last byte of all 256
  -- entries.
  pub init_idt_lem :
      (idt_address v : ℕ) (entries : ℕ → IdtEntry)
      → ((i : ℕ) → stubs i < 2 ^ 64)
      → let (pointer, entries') = init_idt idt_address stubs entries in
        (v < 61 → IsGate (entries' v) (stubs v))
        × (61 ≤ v → entries' v ≡ entries v)
        × (pointer.limit + 1 ≡ 16 * 256)
  unfolding init_idt
  init_idt_lem idt_address v entries small = (
    λ less. set_gates-IsGate 61 0 v entries small (omega arith) (omega arith),
    λ past. set_gates-outside 61 0 v entries (inr (omega arith)),
    refl,
  )

-- A segment that a processor in 64-bit mode takes for the kernel's code: present, of privilege 0, with
-- the bits for code and for the long mode.
abbrev pub IsKernelCode : GdtEntry → Type 0
IsKernelCode e =
    (e.access / 2 ^ 7 % 2 ≡ 1)
    × (e.access / 2 ^ 5 % 4 ≡ 0)
    × (e.access / 2 ^ 3 % 4 ≡ 3)
    × (e.flags / 2 ^ 5 % 2 ≡ 1)

-- The table and the task state segment after `initGdt`.
pub record IsGdt (gdt_address tss_address : ℕ) (entries : ℕ → GdtEntry) (pointer : TablePointer)
    (entries' : ℕ → GdtEntry) (tss : Tss) : Type 0 where
  pub bytes : pointer.limit + 1 ≡ 8 * 7
  pub base : pointer.base ≡ gdt_address
  pub flat : (i : ℕ) → i < 5 → base_of (entries' i) ≡ 0
  pub kernel_code : IsKernelCode (entries' (0x08 / 8))
  pub tss_base : tss_base_of (0x2B / 8) entries' ≡ tss_address
  pub tss_limit : limit_of (entries' (0x2B / 8)) ≡ 103
  pub tss_type : (entries' (0x2B / 8)).access ≡ 0x89
  pub stack : tss ≡ record cleared_tss { rsp0 = 0x90000 }
  pub others : (i : ℕ) → 7 ≤ i → entries' i ≡ entries i

-- `initGdt` makes the selector 0x08, which each gate of `initIdt` has, a present 64-bit code segment of
-- privilege 0, and lets the selector 0x2B, which `tss_flush` loads, give back the 64-bit address and the
-- limit of the task state segment, whose two slots are the last of the table. The bases of the
-- other segments are 0. All of the task state segment is cleared but the stack pointer.
pub init_gdt-IsGdt :
    (gdt_address tss_address : ℕ) (entries : ℕ → GdtEntry)
    → tss_address < 2 ^ 64
    → let (pointer, entries', tss) = init_gdt gdt_address tss_address entries in
      IsGdt gdt_address tss_address entries pointer entries' tss
unfolding init_gdt write_tss set_gdt_gate
init_gdt-IsGdt gdt_address tss_address entries small = record {
  bytes = refl;
  base = refl;
  flat = λ i less. ground arith;
  kernel_code = (refl, refl, refl, refl);
  tss_base = omega arith;
  tss_limit = refl;
  tss_type = refl;
  stack = refl;
  others = λ i past. ground arith;
}
