-- ===== src/Input/Keyboard.antt =====
-- The keyboard branch of `interrupt_handler` in src/kernel/idt/idt.cpp.
pub mod Line
use solstice_os.Base.{
  ℕ, zero, suc, ◌+◌, ◌-◌, Bool, true, false, not, ◌||◌, ◌&&◌, if◌then◌else◌, ltb, leb, ◌==◌, List,
  [], ◌∷◌, ◌++◌, get_or,
}
use solstice_os.Base.Store.{update}
use solstice_os.Text.Format.{codes}

abbrev pub max_command_len : ℕ
max_command_len = 256

-- The globals `shell_buffer`, `buffer_index` and `shift_pressed`.
pub record Keyboard : Type 0 where
  pub shell_buffer : ℕ → ℕ
  pub buffer_index : ℕ
  pub shift_pressed : Bool

-- The two tables by character code, up to the last entry that is not 0. 8 is backspace, 9 tab, 10
-- newline and 27 escape.
unfoldable pub scancodes_ascii : List ℕ
scancodes_ascii =
    0 ∷ 27 ∷ 49 ∷ 50 ∷ 51 ∷ 52 ∷ 53 ∷ 54 ∷ 55 ∷ 56 ∷ 57 ∷ 48 ∷ 45 ∷ 61 ∷ 8 ∷ 9 ∷ 113 ∷ 119 ∷ 101
    ∷ 114 ∷ 116 ∷ 121 ∷ 117 ∷ 105 ∷ 111 ∷ 112 ∷ 91 ∷ 93 ∷ 10 ∷ 0 ∷ 97 ∷ 115 ∷ 100 ∷ 102 ∷ 103 ∷ 104
    ∷ 106 ∷ 107 ∷ 108 ∷ 59 ∷ 39 ∷ 96 ∷ 0 ∷ 92 ∷ 122 ∷ 120 ∷ 99 ∷ 118 ∷ 98 ∷ 110 ∷ 109 ∷ 44 ∷ 46 ∷ 47
    ∷ 0 ∷ 42 ∷ 0 ∷ 32 ∷ 0 ∷ 0 ∷ 0 ∷ 0 ∷ 0 ∷ 0 ∷ 0 ∷ 0 ∷ 0 ∷ 0 ∷ 0 ∷ 0 ∷ 0 ∷ 0 ∷ 0 ∷ 0 ∷ 45 ∷ 0 ∷ 0
    ∷ 0 ∷ 43 ∷ []

unfoldable pub scancodes_ascii_shifted : List ℕ
scancodes_ascii_shifted =
    0 ∷ 27 ∷ 33 ∷ 64 ∷ 35 ∷ 36 ∷ 37 ∷ 94 ∷ 38 ∷ 42 ∷ 40 ∷ 41 ∷ 95 ∷ 43 ∷ 8 ∷ 9 ∷ 81 ∷ 87 ∷ 69 ∷ 82
    ∷ 84 ∷ 89 ∷ 85 ∷ 73 ∷ 79 ∷ 80 ∷ 123 ∷ 125 ∷ 10 ∷ 0 ∷ 65 ∷ 83 ∷ 68 ∷ 70 ∷ 71 ∷ 72 ∷ 74 ∷ 75 ∷ 76
    ∷ 58 ∷ 34 ∷ 126 ∷ 0 ∷ 124 ∷ 90 ∷ 88 ∷ 67 ∷ 86 ∷ 66 ∷ 78 ∷ 77 ∷ 60 ∷ 62 ∷ 63 ∷ 0 ∷ 42 ∷ 0 ∷ 32
    ∷ 0 ∷ 0 ∷ 0 ∷ 0 ∷ 0 ∷ 0 ∷ 0 ∷ 0 ∷ 0 ∷ 0 ∷ 0 ∷ 0 ∷ 0 ∷ 0 ∷ 0 ∷ 0 ∷ 0 ∷ 45 ∷ 0 ∷ 0 ∷ 0 ∷ 43 ∷ []

-- The C string at the start of a buffer: the characters up to the terminator.
unfoldable pub c_string : (fuel at : ℕ) → (ℕ → ℕ) → List ℕ
c_string zero at buffer = []
c_string (suc fuel) at buffer =
    let rest = c_string fuel (at + 1) buffer in if buffer at == 0 then [] else buffer at ∷ rest

-- What the handler has the rest of the kernel do: run a command, rub a character out, or show one.
pub data Action : Type 0 where
  idle rub_out : Action
  show : ℕ → Action
  run : List ℕ → Action

-- The handler behind its table lookup.
unfoldable pub put_char : ℕ → Keyboard → Action × Keyboard
put_char c k =
    let b = k.shell_buffer in
    let n = k.buffer_index in
    if c == 10
    then (
      run (c_string max_command_len 0 (update b n 0)),
      record k { shell_buffer = update (update b n 0) 0 0; buffer_index = 0 },
    )
    else if c == 8
    then if ltb 0 n
      then (rub_out, record k { shell_buffer = update b (n - 1) 0; buffer_index = n - 1 })
      else (idle, k)
    else if not (c == 0) && ltb n (max_command_len - 1)
    then (show c, record k { shell_buffer = update (update b n c) (n + 1) 0; buffer_index = n + 1 })
    else (idle, k)

unfoldable pub key : (scancode : ℕ) → Keyboard → Action × Keyboard
key scancode k =
    let table = if k.shift_pressed then scancodes_ascii_shifted else scancodes_ascii in
    if scancode == 0x2a || scancode == 0x36
    then (idle, record k { shift_pressed = true })
    else if scancode == 0xaa || scancode == 0xb6
    then (idle, record k { shift_pressed = false })
    else if leb 0x80 scancode
    then (idle, k)
    else put_char (get_or table scancode 0) k
