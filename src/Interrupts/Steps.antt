-- ===== src/Interrupts/Steps.antt =====
-- The states that interrupts and the rest of the kernel lead to: `interrupt_handler` of
-- src/kernel/idt/idt.cpp between the operations of src/kernel/tasks/task.cpp.
use solstice_os.Base.{
  Option-cases, ℕ, ◌^◌, ◌<◌, ◌⊎◌, inl, inr, ◌≡◌, refl, arith, Bool-cases, true, false, ◌||◌, ◌==◌,
  leb, [],
}
use solstice_os.Base.Store.{update}
use solstice_os.Base.Int.{+ℤ_parts, pos}
use solstice_os.Io.{Ports}
use solstice_os.Memory.Pmm.{Pmm}
use solstice_os.Input.Keyboard.{Keyboard, key}
use solstice_os.Input.Keyboard.Line.{Line, Holds, put_char-edit}
use solstice_os.Input.Mouse.{IsOnScreen, mouse_data-IsOnScreen}
use solstice_os.Tasks.{free_slot, Task, Tasks, init_tasking, task_exit, task_create, schedule}
use solstice_os.Tasks.Turns.{schedule-IsNext}
use solstice_os.Interrupts.{
  end_of_interrupt, bit_and, Kernel, interrupt_handler, mouse_interrupt, timer_interrupt,
  keyboard_interrupt,
}

-- The values of the globals before the kernel runs.
abbrev pub at_start : {S : Type 0} → S → Kernel S
at_start s = record {
  ports = s;
  timer_ticks = 0;
  mouse = record { cycle = 0; packet = λ i. 0; x = pos 100; y = pos 100; buttons = 0 };
  keyboard = record { shell_buffer = λ i. 0; buffer_index = 0; shift_pressed = false };
  tasks = record { tasks = λ i. record { rsp = 0; state = 0 }; current = 0; tasking_on = false };
}

-- An interrupt with any number, or an operation on the tasks, by the code that is interrupted or by a
-- command of the shell that an interrupt of the keyboard runs; the ports may change at any time.
pub data Step {S : Type 0} (io : Ports S) (width height exit_address start_address : ℕ)
    (k : Kernel S) : Kernel S → Type 0 where
  interrupt :
      (int_no : ℕ)
      → Step io width height exit_address start_address k
          (interrupt_handler io width height int_no k).1
  outside : (s : S) → Step io width height exit_address start_address k (record k { ports = s })
  begin :
      Step io width height exit_address start_address k (record k { tasks = init_tasking k.tasks })
  create :
      (entry : ℕ) (pmm : Pmm)
      → Step io width height exit_address start_address k
          (record k { tasks = (task_create exit_address start_address entry k.tasks pmm).1 })
  exit : Step io width height exit_address start_address k (record k { tasks = task_exit k.tasks })

pub data Reach {S : Type 0} (io : Ports S) (width height exit_address start_address : ℕ)
    (k : Kernel S) : Kernel S → Type 0 where
  here : Reach io width height exit_address start_address k k
  later :
      {l m : Kernel S}
      → Reach io width height exit_address start_address k l
      → Step io width height exit_address start_address l m
      → Reach io width height exit_address start_address k m

-- The pointer is on the screen, the shell's buffer holds a line with its terminator, the current task
-- has a slot, every slot is free or ready, and the count of ticks is a 64-bit number.
pub record IsSound (width height : ℕ) {S : Type 0} (k : Kernel S) : Type 0 where
  pub mouse : IsOnScreen width height k.mouse
  pub line : (line : Line) × Holds k.keyboard line
  pub current : k.tasks.current < 8
  pub slots : (i : ℕ) → ((k.tasks.tasks i).state ≡ 0) ⊎ ((k.tasks.tasks i).state ≡ 1)
  pub ticks : k.timer_ticks < 2 ^ 64

-- A key press leaves a line in the buffer.
key-Holds :
    (scancode : ℕ) (k : Keyboard) (line : Line)
    → Holds k line
    → (line' : Line) × Holds (key scancode k).1 line'
unfolding key
key-Holds scancode k line is =
    let same : (b : _) → Holds (record k { shift_pressed = b }) line =
      λ b. record { chars = is.chars; index = is.index; short = is.short; ended = is.ended } in
    elim (Bool-cases (scancode == 0x2a || scancode == 0x36)) [
      | inl down ↦ rw down (line, same true)
      | inr other ↦ elim (Bool-cases (scancode == 0xaa || scancode == 0xb6)) [
        | inl up ↦ rw (other, up) (line, same false)
        | inr rest ↦ elim (Bool-cases (leb 0x80 scancode)) [
          | inl high ↦ rw (other, rest, high) (line, is)
          | inr low ↦ rw (other, rest, low) (_, (put_char-edit _ k line is).1)
        ]
      ]
    ]

schedule-current :
    (s : Tasks) → s.current < 8 → ((schedule s).1.current < 8) × ((schedule s).1.tasks ≡ s.tasks)
unfolding schedule
schedule-current s inside = elim (Bool-cases s.tasking_on) [
  | inl on ↦ let (n, is, e, _) = schedule-IsNext s inside on in rw e (omega arith, refl)
  | inr off ↦ rw off (inside, refl)
]

-- The fields of `IsSound` that an operation on the tasks must show again.
abbrev HasTasks : Tasks → Type 0
HasTasks s = (s.current < 8) × ((i : ℕ) → ((s.tasks i).state ≡ 0) ⊎ ((s.tasks i).state ≡ 1))

HasTasks-update :
    (s : Tasks) (i : ℕ) (t : Task)
    → (t.state ≡ 0) ⊎ (t.state ≡ 1)
    → HasTasks s
    → HasTasks (record s { tasks = update s.tasks i t })
HasTasks-update s i t state is =
    (is.0, λ j. elim (Bool-cases (j == i)) [ inl hit ↦ rw hit state | inr miss ↦ rw miss (is.1 j) ])

HasTasks-create :
    (exit_address start_address entry : ℕ) (s : Tasks) (pmm : Pmm)
    → HasTasks s
    → HasTasks (task_create exit_address start_address entry s pmm).1
unfolding task_create
HasTasks-create exit_address start_address entry s pmm is =
    elim (Option-cases (free_slot 7 1 s.tasks)) [
      | inl e ↦ rw (e, task_create) is
      | inr (i, e) ↦ rw (e, task_create) (HasTasks-update s i _ (inr refl) is)
    ]

module _ {S : Type 0} (width height : ℕ) where
  with_ports :
      (s : S) (k : Kernel S)
      → IsSound width height k
      → IsSound width height (record k { ports = s })
  with_ports s k is = record {
    mouse = is.mouse;
    line = is.line;
    current = is.current;
    slots = is.slots;
    ticks = is.ticks;
  }

  with_tasks :
      (t : Tasks) (k : Kernel S)
      → IsSound width height k
      → HasTasks t
      → IsSound width height (record k { tasks = t })
  with_tasks t k is (inside, states) = record {
    mouse = is.mouse;
    line = is.line;
    current = inside;
    slots = states;
    ticks = is.ticks;
  }

module _ {S : Type 0} (io : Ports S) (width height : ℕ) where
  mouse_interrupt-IsSound :
      (k : Kernel S)
      → 0 < width
      → 0 < height
      → IsSound width height k
      → IsSound width height (mouse_interrupt io width height k)
  unfolding mouse_interrupt
  mouse_interrupt-IsSound k wide high is =
      elim (Bool-cases (bit_and (io.inb 0x64 k.ports).0 0x20 == 0)) [
        | inl other ↦ rw other (with_ports width height _ k is)
        | inr mouse ↦ rw mouse (record {
          mouse = mouse_data-IsOnScreen width height _ k.mouse wide high is.mouse;
          line = is.line;
          current = is.current;
          slots = is.slots;
          ticks = is.ticks;
        })
      ]

  timer_interrupt-IsSound :
      (k : Kernel S) → IsSound width height k → IsSound width height (timer_interrupt io k).1
  unfolding timer_interrupt
  timer_interrupt-IsSound k is =
      let (inside, same) = schedule-current k.tasks is.current in
      record {
        mouse = is.mouse;
        line = is.line;
        current = inside;
        slots = rw same is.slots;
        ticks = omega arith;
      }

  keyboard_interrupt-IsSound :
      (k : Kernel S) → IsSound width height k → IsSound width height (keyboard_interrupt io k).1
  unfolding keyboard_interrupt
  keyboard_interrupt-IsSound k is = record {
    mouse = is.mouse;
    line = key-Holds _ k.keyboard is.line.0 is.line.1;
    current = is.current;
    slots = is.slots;
    ticks = is.ticks;
  }

  interrupt_handler-IsSound :
      (int_no : ℕ) (k : Kernel S)
      → 0 < width
      → 0 < height
      → IsSound width height k
      → IsSound width height (interrupt_handler io width height int_no k).1
  unfolding interrupt_handler
  interrupt_handler-IsSound int_no k wide high is =
      let s = end_of_interrupt io int_no k.ports in
      let k' : Kernel S = record k { ports = s } in
      let is' : IsSound width height k' = with_ports width height s k is in
      elim (Bool-cases (int_no == 44)) [
        | inl mouse ↦ rw mouse (mouse_interrupt-IsSound k' wide high is')
        | inr a ↦ elim (Bool-cases (int_no == 32)) [
          | inl timer ↦ rw (a, timer) (timer_interrupt-IsSound k' is')
          | inr b ↦ elim (Bool-cases (int_no == 0x21)) [
            | inl keyboard ↦ rw (a, b, keyboard) (keyboard_interrupt-IsSound k' is')
            | inr c ↦ rw (a, b, c) is'
          ]
        ]
      ]

module _ {S : Type 0} (io : Ports S) (width height exit_address start_address : ℕ)
    (wide : 100 < width) (high : 100 < height) where
  at_start-IsSound : (s : S) → IsSound width height (at_start s)
  at_start-IsSound s = record {
    mouse = record {
      cycle = omega arith;
      left = omega arith;
      right = omega (arith, +ℤ_parts (pos 100) (pos 1));
      top = omega arith;
      bottom = omega (arith, +ℤ_parts (pos 100) (pos 1));
    };
    line = ([], record { chars = tt; index = refl; short = omega arith; ended = refl });
    current = omega arith;
    slots = λ i. inl refl;
    ticks = omega arith;
  }

  Step-IsSound :
      {k l : Kernel S}
      → Step io width height exit_address start_address k l
      → IsSound width height k
      → IsSound width height l
  unfolding init_tasking task_exit
  Step-IsSound {k} (interrupt int_no) is =
      interrupt_handler-IsSound io width height int_no k (omega (arith, wide)) (omega (arith, high))
        is
  Step-IsSound {k} (outside s) is = with_ports width height s k is
  Step-IsSound {k} begin is =
      with_tasks width height _ k is (HasTasks-update k.tasks 0 _ (inr refl) (is.current, is.slots))
  Step-IsSound {k} (create entry pmm) is =
      with_tasks width height _ k is
        (HasTasks-create exit_address start_address entry k.tasks pmm (is.current, is.slots))
  Step-IsSound {k} exit is =
      with_tasks width height _ k is
        (HasTasks-update k.tasks k.tasks.current _ (inl refl) (is.current, is.slots))

  -- From the values that the globals start with, in any order of interrupts, with any numbers and
  -- anything on the ports, and of operations on the tasks in between: the pointer stays on a screen
  -- with more than 100 columns and rows, the shell's buffer holds a line with its terminator within
  -- its 256 bytes, the current task is one of the 8, every slot is free or ready, and the count of
  -- ticks is a 64-bit number.
  pub Reach-IsSound :
      (s : S) {k : Kernel S}
      → Reach io width height exit_address start_address (at_start s) k
      → IsSound width height k
  Reach-IsSound s here = at_start-IsSound s
  Reach-IsSound s (later reached step) = Step-IsSound step (Reach-IsSound s reached)
