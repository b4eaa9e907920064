-- ===== src/Interrupts/Tests.antt =====
-- Instances of the theorems, on hardware whose ports give bytes from a list.
use solstice_os.Base.{refl, false, false, ℕ, ◌+◌, ◌*◌, ◌%◌, ◌<◌, ◌≤◌, ◌≡◌, List, [], ◌∷◌, arith}
use solstice_os.Io.{Ports, logged}
use solstice_os.Tasks.{init_tasking, task_exit}
use solstice_os.Input.Gates.{IdtEntry, GdtEntry}
use solstice_os.Interrupts.{Kernel, interrupt_handler}
use solstice_os.Interrupts.Steps.{
  IsSound, at_start, Reach-IsSound, here, later, begin, interrupt, exit,
}
use solstice_os.Interrupts.Service.{runs_command, Serviced, interrupt_handler-Serviced}
use solstice_os.Interrupts.Tables.{init_gdt, IsGdt, init_gdt-IsGdt, init_idt, IsGate, init_idt_lem}
use solstice_os.Interrupts.Timer.{init_timer, init_timer-divisor}

abbrev next_byte : List ℕ → ℕ × List ℕ
next_byte [] = (0, [])
next_byte (b ∷ bytes) = (b, bytes)

abbrev bytes_in : Ports (List ℕ)
bytes_in = record {
  inb = λ p. next_byte;
  inw = λ p. next_byte;
  outb = λ p v bytes. bytes;
  outw = λ p v bytes. bytes;
}

-- Tasking begins, a mouse byte comes, and a task ends.
abbrev later_state : Kernel (List ℕ)
later_state =
    let k : Kernel (List ℕ) = at_start (0x20 ∷ 9 ∷ []) in
    let k₁ : Kernel (List ℕ) = record k { tasks = init_tasking k.tasks } in
    let k₂ = (interrupt_handler bytes_in 640 480 44 k₁).1 in
    record k₂ { tasks = task_exit k₂.tasks }

Reach-IsSound_example : IsSound 640 480 later_state
Reach-IsSound_example =
    Reach-IsSound bytes_in 640 480 0x3000 0x4000 (omega arith) (omega arith) (0x20 ∷ 9 ∷ [])
      (later (later (later here begin) (interrupt 44)) exit)

abbrev logged_start : Kernel (List ℕ × List (ℕ × ℕ))
logged_start = at_start {S = List ℕ × List (ℕ × ℕ)} (0x20 ∷ 9 ∷ [], [])

no_command : runs_command (interrupt_handler (logged bytes_in) 640 480 44 logged_start).0 ≡ false
unfolding interrupt_handler
no_command = refl

interrupt_handler-Serviced_example :
    let k = logged_start in
    let (effect, k') = interrupt_handler (logged bytes_in) 640 480 44 k in
    Serviced 44 [] k effect k'
interrupt_handler-Serviced_example =
    interrupt_handler-Serviced bytes_in 640 480 44 logged_start no_command

no_gdt : ℕ → GdtEntry
no_gdt i = record { limit = 0; base_low = 0; base_middle = 0; access = 0; flags = 0; base_high = 0 }

init_gdt-IsGdt_example :
    let (pointer, entries, tss) = init_gdt 0x5000 0x123456789abc no_gdt in
    IsGdt 0x5000 0x123456789abc no_gdt pointer entries tss
init_gdt-IsGdt_example = init_gdt-IsGdt 0x5000 0x123456789abc no_gdt (omega arith)

no_idt : ℕ → IdtEntry
no_idt i = record {
  isr_low = 0;
  selector = 0;
  ist = 0;
  flags = 0;
  isr_mid = 0;
  isr_high = 0;
  reserved = 0;
}

init_idt_lem_example :
    let (pointer, entries) = init_idt 0x6000 (λ i. 0x2000 + i % 61) no_idt in
    (44 < 61 → IsGate (entries 44) (0x2000 + 44 % 61))
    × (61 ≤ 44 → entries 44 ≡ no_idt 44)
    × (pointer.limit + 1 ≡ 16 * 256)
init_idt_lem_example = init_idt_lem (λ i. 0x2000 + i % 61) 0x6000 44 no_idt (λ i. omega arith)

init_timer-divisor_example :
    (low : ℕ) × (high : ℕ) × (low < 256)
    × (high < 256)
    × (0 < low + 256 * high)
    × ((low + 256 * high) * 1000 ≤ 1193180)
    × (1193180 < (low + 256 * high + 1) * 1000)
    × ((init_timer (logged bytes_in) 1000 ([], [])).1
        ≡ (0x43, 0x36) ∷ (0x40, low) ∷ (0x40, high) ∷ [])
init_timer-divisor_example = init_timer-divisor bytes_in 1000 [] [] (omega arith) (omega arith)
