-- ===== src/Interrupts.antt =====
-- The interrupt path of src/kernel/idt/idt.cpp as a whole: which component an interrupt goes to, and how
-- the components' states move as interrupts and the rest of the kernel alternate.
pub mod Steps
pub mod Timer
pub mod Tables
pub mod Service
mod Tests
use Prim.Native.Nat.{bit_and}
use solstice_os.Base.{
  ℕ, ◌+◌, ◌%◌, ◌^◌, if◌then◌else◌, leb, ◌==◌, Option, none, List, [], ◌∷◌, false,
}
use solstice_os.Io.{Ports}
use solstice_os.Input.Keyboard.{Keyboard, Action, idle, key}
use solstice_os.Input.Mouse.{Mouse, mouse_data}
use solstice_os.Tasks.{Tasks, schedule}

-- What an interrupt reads and changes: the ports, `timer_ticks`, and the state of the mouse, the
-- keyboard and the tasks.
pub record Kernel (S : Type 0) : Type 0 where
  pub ports : S
  pub timer_ticks : ℕ
  pub mouse : Mouse
  pub keyboard : Keyboard
  pub tasks : Tasks

-- What the handler goes on with at its end, before it returns: nothing, the switch from one task to
-- another, or an action of the console or the shell. A command of the shell may write to ports, create
-- tasks and wait for ticks: what it does to the kernel's state comes behind the state returned here.
pub data Effect : Type 0 where
  quiet : Effect
  switching : Option (ℕ × ℕ) → Effect
  typing : Action → Effect

module _ {S : Type 0} (io : Ports S) where
  unfoldable pub end_of_interrupt : (int_no : ℕ) → S → S
  end_of_interrupt int_no s =
      let s' = if leb 0x28 int_no then io.outb 0xA0 0x20 s else s in io.outb 0x20 0x20 s'

  unfoldable pub mouse_interrupt : (width height : ℕ) → Kernel S → Kernel S
  mouse_interrupt width height k =
      let (status, s) = io.inb 0x64 k.ports in
      let (byte, s') = io.inb 0x60 s in
      if bit_and status 0x20 == 0
      then record k { ports = s }
      else record k { ports = s'; mouse = mouse_data width height byte k.mouse }

  unfoldable pub timer_interrupt : Kernel S → Effect × Kernel S
  timer_interrupt k =
      let (switch, tasks) = schedule k.tasks in
      (switching switch, record k { timer_ticks = (k.timer_ticks + 1) % 2 ^ 64; tasks = tasks })

  -- Up to the calls of `vga_print`, `execute_command` and the console, which are the action.
  unfoldable pub keyboard_interrupt : Kernel S → Effect × Kernel S
  keyboard_interrupt k =
      let (scancode, s) = io.inb 0x60 k.ports in
      let (action, keyboard) = key scancode k.keyboard in
      (typing action, record k { ports = s; keyboard = keyboard })

  unfoldable pub interrupt_handler : (width height int_no : ℕ) → Kernel S → Effect × Kernel S
  interrupt_handler width height int_no k =
      let k' = record k { ports = end_of_interrupt int_no k.ports } in
      if int_no == 44
      then (quiet, mouse_interrupt width height k')
      else if int_no == 32
      then timer_interrupt k'
      else if int_no == 0x21
      then keyboard_interrupt k'
      else (quiet, k')
