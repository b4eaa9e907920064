-- ===== src/Console/Print.antt =====
-- The colored output of src/kernel/utils/utils.cpp on the console: `vga_putc`, `vga_print`, `print_prompt` and
-- `hex_dump`.
use solstice_os.Console.Cursor.{IsInside, put, serve-IsInside}
use solstice_os.Base.Int.{pos}
use solstice_os.Base.{◌+◌, ◌≤◌, ◌≡◌, ℕ, List, [], ◌∷◌}
use solstice_os.Text.Format.{codes}
use solstice_os.Text.HexDump.{hex_dump}
use solstice_os.Console.{Console, SsfnDst, Bytes, console_set_color, console_putc, console_puts}

module _ (ssfn_putc : ℕ → SsfnDst → Bytes → SsfnDst × Bytes) where
  unfoldable pub vga_putc : (ch txt_col bg_col : ℕ) → Console → Console
  vga_putc ch txt_col bg_col c = console_putc ssfn_putc ch (console_set_color txt_col bg_col c)

  unfoldable pub vga_print : (str : List ℕ) (txt_col bg_col : ℕ) → Console → Console
  vga_print str txt_col bg_col c = console_puts ssfn_putc str (console_set_color txt_col bg_col c)

  -- `path` is `ext2_get_path()`.
  unfoldable pub print_prompt : (path : List ℕ) → Console → Console
  print_prompt path c =
      console_set_color 0x0F 0 (vga_print (codes " $ ") 0x0C 0 (vga_print path 0x09 0 c))

  -- The strings of a row of a dump, or of all rows.
  unfoldable pub print_strings : List (List ℕ) → Console → Console
  print_strings [] c = c
  print_strings (s ∷ ss) c = print_strings ss (vga_print s 0xFF 0 c)

  unfoldable pub print_rows : List (List (List ℕ)) → Console → Console
  print_rows [] c = c
  print_rows (row ∷ rows) c = print_rows rows (print_strings row c)

  unfoldable pub print_dump : (p : ℕ → ℕ) (len : ℕ) → Console → Console
  print_dump p len c = print_rows (hex_dump p len) c

-- With a font that moves the place to the right by at most 255 pixels, as in `serve-IsInside`.
module _ (ssfn_putc : ℕ → SsfnDst → Bytes → SsfnDst × Bytes) (advance : ℕ → ℕ)
    (advance-le : (ch : ℕ) → advance ch ≤ 255)
    (moves : (ch n m : ℕ) (d : SsfnDst) (b : Bytes)
      → d.x ≡ pos n
      → d.y ≡ pos m
      → ((ssfn_putc ch d b).0.x ≡ pos (n + advance ch)) × ((ssfn_putc ch d b).0.y ≡ pos m)) where
  color-IsInside : (fg bg : ℕ) (c : Console) → IsInside c → IsInside (console_set_color fg bg c)
  unfolding console_set_color
  color-IsInside fg bg c v = record { wide = v.wide; high = v.high; column = v.column; row = v.row }

  puts-IsInside : (s : List ℕ) (c : Console) → IsInside c → IsInside (console_puts ssfn_putc s c)
  unfolding console_puts
  puts-IsInside [] c v = v
  puts-IsInside (ch ∷ s) c v =
      puts-IsInside s (console_putc ssfn_putc ch c)
        (serve-IsInside ssfn_putc advance advance-le moves (put ch ∷ []) c v)

  print-IsInside :
      (s : List ℕ) (fg bg : ℕ) (c : Console) → IsInside c → IsInside (vga_print ssfn_putc s fg bg c)
  unfolding vga_print
  print-IsInside s fg bg c v =
      puts-IsInside s (console_set_color fg bg c) (color-IsInside fg bg c v)

  strings-IsInside :
      (ss : List (List ℕ)) (c : Console) → IsInside c → IsInside (print_strings ssfn_putc ss c)
  unfolding print_strings
  strings-IsInside [] c v = v
  strings-IsInside (s ∷ ss) c v =
      strings-IsInside ss (vga_print ssfn_putc s 0xFF 0 c) (print-IsInside s 0xFF 0 c v)

  rows-IsInside :
      (rows : List (List (List ℕ))) (c : Console)
      → IsInside c
      → IsInside (print_rows ssfn_putc rows c)
  unfolding print_rows
  rows-IsInside [] c v = v
  rows-IsInside (row ∷ rows) c v =
      rows-IsInside rows (print_strings ssfn_putc row c) (strings-IsInside row c v)

  -- The prompt and a dump keep the cursor inside the console.
  pub prompt_and_dump-IsInside :
      (path : List ℕ) (p : ℕ → ℕ) (len : ℕ) (c : Console)
      → IsInside c
      → IsInside (print_prompt ssfn_putc path c) × IsInside (print_dump ssfn_putc p len c)
  unfolding print_prompt print_dump
  prompt_and_dump-IsInside path p len c v = (
    color-IsInside 0x0F 0 _
        (print-IsInside (codes " $ ") 0x0C 0 _ (print-IsInside path 0x09 0 c v)),
    rows-IsInside (hex_dump p len) c v,
  )
