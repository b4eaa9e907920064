-- ===== src/Interrupts/Service.antt =====
-- What `interrupt_handler` of src/kernel/idt/idt.cpp does for each number, up to the commands of the shell.
use solstice_os.Base.{
  true, false, Bool, ℕ, ◌≡◌, ◌≢◌, inl, inr, refl, arith, Bool-cases, ◌==◌, leb, if◌then◌else◌, List,
  [], ◌∷◌, ◌++◌,
}
use mathlib.Core.List.{append_assoc}
use Prim.Native.Nat.{bit_and}
use solstice_os.Io.{Ports, logged}
use solstice_os.Input.Keyboard.{run}
use solstice_os.Interrupts.{
  Kernel, Effect, quiet, typing, end_of_interrupt, mouse_interrupt, timer_interrupt,
  keyboard_interrupt, interrupt_handler,
}

-- The controllers that an interrupt is acknowledged at: from 0x28 on the slave, then the master; below it
-- the master only.
abbrev pub acknowledged : (int_no : ℕ) → List (ℕ × ℕ)
acknowledged int_no =
    if leb 0x28 int_no then (0xA0, 0x20) ∷ (0x20, 0x20) ∷ [] else (0x20, 0x20) ∷ []

-- Whether the handler goes on with `execute_command`, before it ends.
abbrev pub runs_command : Effect → Bool
runs_command (typing (run line)) = true
runs_command effect = false

-- The state after an interrupt, where only the component with this number may have changed.
pub record Serviced {S : Type 0} (int_no : ℕ) (log : List (ℕ × ℕ)) (k : Kernel (S × List (ℕ × ℕ)))
    (effect_of : Effect) (k' : Kernel (S × List (ℕ × ℕ))) : Type 0 where
  pub writes : k'.ports.1 ≡ log ++ acknowledged int_no
  pub mouse : int_no ≢ 44 → k'.mouse ≡ k.mouse
  pub tasks : int_no ≢ 32 → k'.tasks ≡ k.tasks
  pub ticks : int_no ≢ 32 → k'.timer_ticks ≡ k.timer_ticks
  pub keyboard : int_no ≢ 0x21 → k'.keyboard ≡ k.keyboard
  pub effect : int_no ≢ 32 → int_no ≢ 0x21 → effect_of ≡ quiet

module _ {S : Type 0} (io : Ports S) (width height int_no : ℕ) (k : Kernel (S × List (ℕ × ℕ))) where
  end_of_interrupt-log :
      (s : S × List (ℕ × ℕ))
      → (end_of_interrupt (logged io) int_no s).1 ≡ s.1 ++ acknowledged int_no
  unfolding end_of_interrupt
  end_of_interrupt-log s = elim (Bool-cases (leb 0x28 int_no)) [
    | inl slave ↦ rw slave (append_assoc s.1 ((0xA0, 0x20) ∷ []) ((0x20, 0x20) ∷ []))
    | inr master ↦ rw master refl
  ]

  -- On every path on which the handler runs no command of the shell, early returns included, it writes to the ports just the acknowledgement that
  -- the number calls for: to both interrupt controllers for the numbers from 0x28 on, and to the master
  -- for the others. It changes the mouse only for number 44, the tasks and the count of ticks only for
  -- 32 (where the switch to another task is still to come), and the keyboard only for 33, and the rest of the kernel has something to do only for 32 and 33.
  pub interrupt_handler-Serviced :
      let (effect, k') = interrupt_handler (logged io) width height int_no k in
      runs_command effect ≡ false → Serviced int_no k.ports.1 k effect k'
  unfolding interrupt_handler timer_interrupt keyboard_interrupt mouse_interrupt
  interrupt_handler-Serviced no_command =
      let log = end_of_interrupt-log k.ports in
      elim (Bool-cases (int_no == 44)) [
        | inl mouse ↦
            elim (Bool-cases
              (bit_and (io.inb 0x64 (end_of_interrupt (logged io) int_no k.ports).0).0 0x20 == 0)) [
                | inl other ↦
                    rw (mouse, other)
                      (record {
                        writes = log;
                        mouse = λ h. refl;
                        tasks = λ h. refl;
                        ticks = λ h. refl;
                        keyboard = λ h. refl;
                        effect = λ h i. refl;
                      })
                | inr ours ↦
                    rw (mouse, ours)
                      (record {
                        writes = log;
                        mouse = λ h. absurd (ground arith);
                        tasks = λ h. refl;
                        ticks = λ h. refl;
                        keyboard = λ h. refl;
                        effect = λ h i. refl;
                      })
              ]
        | inr a ↦ elim (Bool-cases (int_no == 32)) [
          | inl timer ↦
              rw (a, timer)
                (record {
                  writes = log;
                  mouse = λ h. refl;
                  tasks = λ h. absurd (ground arith);
                  ticks = λ h. absurd (ground arith);
                  keyboard = λ h. refl;
                  effect = λ h i. absurd (ground arith);
                })
          | inr b ↦ elim (Bool-cases (int_no == 0x21)) [
            | inl keyboard ↦
                rw (a, b, keyboard)
                  (record {
                    writes = log;
                    mouse = λ h. refl;
                    tasks = λ h. refl;
                    ticks = λ h. refl;
                    keyboard = λ h. absurd (ground arith);
                    effect = λ h i. absurd (ground arith);
                  })
            | inr c ↦
                rw (a, b, c)
                  (record {
                    writes = log;
                    mouse = λ h. refl;
                    tasks = λ h. refl;
                    ticks = λ h. refl;
                    keyboard = λ h. refl;
                    effect = λ h i. refl;
                  })
          ]
        ]
      ]
