-- ===== src/Input/Tests.antt =====
-- Instances of the theorems on input.
use solstice_os.Base.{
  ap, ℕ, ◌%◌, ◌/◌, ◌^◌, ◌≡◌, ◌≢◌, ◌⊎◌, ◌==◌, false, if◌then◌else◌, [], ◌∷◌, arith, refl, get_or,
}
use solstice_os.Base.Int.{pos}
use solstice_os.Input.Keyboard.{Keyboard, put_char, scancodes_ascii, scancodes_ascii_shifted}
use solstice_os.Input.Keyboard.Line.{edit, Holds, put_char-edit}
use Prim.Native.Nat.{bit_or}
use solstice_os.Base.{suc, ◌-◌, List, ◌++◌, true}
use solstice_os.Io.{Ports}
use solstice_os.Input.Ps2.{Controller, init_mouse, Taken, init_mouse-Taken, still_waits}
use solstice_os.Input.Mouse.{Mouse}
use solstice_os.Input.Gates.{IdtEntry, GdtEntry, set_gdt_gate, base_of, limit_of, set_gdt_gate_lem}

-- The buffer with `ls` in it.
abbrev typed : Keyboard
typed = record {
  shell_buffer = λ i. if i == 0 then b'l' else if i == 1 then b's' else 0;
  buffer_index = 2;
  shift_pressed = false;
}

typed-Holds : Holds typed (b's' ∷ b'l' ∷ [])
typed-Holds = record {
  chars = (refl, omega arith, (refl, omega arith, tt));
  index = refl;
  short = omega arith;
  ended = refl;
}

put_char-edit_example :
    ((put_char 10 typed).0 ≡ (edit 10 (b's' ∷ b'l' ∷ [])).0)
    × Holds (put_char 10 typed).1 (edit 10 (b's' ∷ b'l' ∷ [])).1
put_char-edit_example = put_char-edit 10 typed (b's' ∷ b'l' ∷ []) typed-Holds

-- With shift the arrow to the left and the end key type the signs of the keys before them.
arrows :
    (get_or scancodes_ascii 0x4b 0 ≡ 0)
    × (get_or scancodes_ascii_shifted 0x4b 0 ≡ b'-')
    × (get_or scancodes_ascii 0x4a 0 ≡ b'-')
    × (get_or scancodes_ascii_shifted 0x4a 0 ≡ 0)
unfolding scancodes_ascii scancodes_ascii_shifted
arrows = (refl, refl, refl, refl)

abbrev corner : Mouse
corner = record {
  cycle = 2;
  packet = λ i. if i == 0 then 9 else 100;
  x = pos 600;
  y = pos 5;
  buttons = 0;
}

abbrev no_idt : ℕ → IdtEntry
no_idt i = record {
  isr_low = 0;
  selector = 0;
  ist = 0;
  flags = 0;
  isr_mid = 0;
  isr_high = 0;
  reserved = 0;
}

abbrev no_gdt : ℕ → GdtEntry
no_gdt i = record { limit = 0; base_low = 0; base_middle = 0; access = 0; flags = 0; base_high = 0 }

set_gdt_gate_lem_example :
    let e = set_gdt_gate 1 0 0xfffff 0x9a 0xa0 no_gdt 1 in
    (base_of e ≡ 0)
    × (limit_of e ≡ 0xffff)
    × ((0xa0 % 16 ≡ 0xfffff / 2 ^ 16) ⊎ (limit_of e ≢ 0xfffff))
set_gdt_gate_lem_example = set_gdt_gate_lem 1 0 0xfffff 0x9a 0xa0 no_gdt (omega arith)

-- A controller that is busy for two polls after each byte, and gives 0x41 to be read.
abbrev slow_ports : Ports (List (ℕ × ℕ) × ℕ)
slow_ports = record {
  inb = λ p s. if p == 0x64 then ((if s.1 == 0 then 1 else 3), (s.0, s.1 - 1)) else (0x41, s);
  inw = λ p s. (0, s);
  outb = λ p v s. (s.0 ++ ((p, v) ∷ []), 2);
  outw = λ p v s. s;
}

slow_busy :
    (log : List (ℕ × ℕ)) (n : ℕ) (s : List (ℕ × ℕ) × ℕ)
    → s ≡ (log, suc n)
    → (still_waits true (slow_ports.inb 0x64 s).0 ≡ true) × ((slow_ports.inb 0x64 s).1 ≡ (log, n))
unfolding still_waits
slow_busy log n s e =
    let waits : (suc n == 0) ≡ false = ground arith in
    let less : suc n - 1 ≡ n = omega arith in rw (e, waits, less) (refl, refl)

slow_free :
    (log : List (ℕ × ℕ)) (s : List (ℕ × ℕ) × ℕ)
    → s ≡ (log, 0)
    → (still_waits true (slow_ports.inb 0x64 s).0 ≡ false) × ((slow_ports.inb 0x64 s).1 ≡ (log, 0))
unfolding still_waits
slow_free log s e = rw e (refl, refl)

abbrev slow : Controller slow_ports
slow = record {
  Took = λ log n s. s ≡ (log, n);
  busy = slow_busy;
  free = slow_free;
  write = λ log port value s at e. (2, omega arith, ap (slow_ports.outb port value) e);
  read = λ log n s e. e;
}

init_mouse-Taken_example :
    (s' : List (ℕ × ℕ) × ℕ) × Taken slow_ports slow ((0x64, 0xA8) ∷ (0x64, 0x20) ∷ []) s'
    × Taken slow_ports slow
        ((0x64, 0xA8)
          ∷ (0x64, 0x20)
          ∷ (0x64, 0x60)
          ∷ (0x60, bit_or (slow_ports.inb 0x60 s').0 2)
          ∷ (0x64, 0xD4)
          ∷ (0x60, 0xF6)
          ∷ (0x64, 0xD4)
          ∷ (0x60, 0xF4)
          ∷ [])
        (init_mouse slow_ports ([], 2))
init_mouse-Taken_example = init_mouse-Taken slow_ports slow ([], 2) (2, omega arith, refl)
