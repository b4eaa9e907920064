-- ===== src/Console/Cursor.antt =====
-- The cursor of src/kernel/misc/console.cpp stays on the console.
use solstice_os.Base.{
  if◌then◌else◌, ℕ, ◌+◌, ◌%◌, ◌^◌, ◌<◌, ◌≤◌, ◌≡◌, refl, ap, ◌∙◌, false, not, ◌||◌, ltb, leb, ◌==◌,
  arith, inl, inr, Bool-cases, none, some, List, [], ◌∷◌,
}
use solstice_os.Base.Int.{pos}
use solstice_os.Util.Bytes.{Bytes}
use solstice_os.Console.{
  SsfnDst, Console, console_dirty, console_clear, console_fill_rows, console_backspace,
  console_scroll, draw_char, console_putc, to_int, new_line,
}

-- Two consoles of the same size with the cursor at the same place.
abbrev SamePlace : (c d : Console) → Type 0
SamePlace c d =
    (d.ptr ≡ c.ptr) × (d.width ≡ c.width) × (d.height ≡ c.height) × (d.x ≡ c.x) × (d.y ≡ c.y)

-- The character cell at the cursor lies on the console, whose size fits an `int`.
pub record IsInside (c : Console) : Type 0 where
  pub wide : (8 ≤ c.width) × (c.width < 2 ^ 31)
  pub high : (16 ≤ c.height) × (c.height < 2 ^ 31)
  pub column : c.x + 8 ≤ c.width
  pub row : c.y + 16 ≤ c.height

dirty-SamePlace : (c : Console) → SamePlace c (console_dirty c)
unfolding console_dirty
dirty-SamePlace c = elim c.window as (λ w. SamePlace c (console_dirty (record c { window = w }))) [
  | none ↦ (refl, refl, refl, refl, refl)
  | some i ↦ (refl, refl, refl, refl, refl)
]

of_place : (c d : Console) → SamePlace c d → IsInside c → IsInside d
of_place c d same v = record {
  wide = (omega (arith, same, v.wide), omega (arith, same, v.wide));
  high = (omega (arith, same, v.high), omega (arith, same, v.high));
  column = omega (arith, same, v.column);
  row = omega (arith, same, v.row);
}

-- After scrolling the cursor is at the start of the last row.
scroll-IsInside :
    (c : Console)
    → (8 ≤ c.width) × (c.width < 2 ^ 31)
    → (16 ≤ c.height) × (c.height < 2 ^ 31)
    → (c.ptr == 0) ≡ false
    → IsInside (console_scroll c)
unfolding console_scroll console_fill_rows
scroll-IsInside c wide high some_ptr =
    rw some_ptr
      (record { wide = wide; high = high; column = omega (arith, wide); row = omega (arith, high) })

-- The cursor is on the console, or one row below its last one.
record IsNear (c : Console) : Type 0 where
  wide : (8 ≤ c.width) × (c.width < 2 ^ 31)
  high : (16 ≤ c.height) × (c.height < 2 ^ 31)
  column : c.x + 8 ≤ c.width
  row : c.y ≤ c.height

new_line-IsNear : (c : Console) → IsInside c → IsNear (new_line c)
new_line-IsNear c v = record {
  wide = v.wide;
  high = v.high;
  column = omega (arith, v.wide);
  row = omega (arith, v.row, v.high);
}

near-IsInside :
    (c : Console)
    → IsNear c
    → (c.ptr == 0) ≡ false
    → IsInside (if ltb c.height ((c.y + 16) % 2 ^ 32) then console_scroll c else c)
near-IsInside c v some_ptr = elim (Bool-cases (ltb c.height ((c.y + 16) % 2 ^ 32))) [
  | inl below ↦ rw below (scroll-IsInside c v.wide v.high some_ptr)
  | inr on ↦ rw on (record {
    wide = v.wide;
    high = v.high;
    column = v.column;
    row = ground (arith, v.row, v.high);
  })
]

backspace-IsInside : (c : Console) → IsInside c → IsInside (console_backspace c)
unfolding console_backspace
backspace-IsInside c v =
    let v' = of_place c (console_dirty c) (dirty-SamePlace c) v in
    let d = console_dirty c in
    elim (Bool-cases (c.ptr == 0)) [
      | inl null ↦ rw null v
      | inr some_ptr ↦ elim (Bool-cases (leb 8 d.x)) [
        | inl left ↦
            rw (some_ptr, left)
              (record {
                wide = v'.wide;
                high = v'.high;
                column = omega (arith, v'.column);
                row = v'.row;
              })
        | inr start ↦ elim (Bool-cases (leb 16 d.y)) [
          | inr top ↦ rw (some_ptr, start, top) v'
          | inl up ↦
              rw (some_ptr, start, up)
                (record {
                  wide = v'.wide;
                  high = v'.high;
                  column = omega (arith, v'.wide);
                  row = omega (arith, v'.row);
                })
        ]
      ]
    ]

wipe-IsInside : (c : Console) → IsInside c → IsInside (console_clear c)
unfolding console_clear console_fill_rows
wipe-IsInside c v =
    let v' = of_place c (console_dirty c) (dirty-SamePlace c) v in
    elim (Bool-cases ((console_dirty c).ptr == 0)) [
      | inl null ↦ rw null (record {
        wide = v'.wide;
        high = v'.high;
        column = omega (arith, v'.wide);
        row = omega (arith, v'.high);
      })
      | inr some_ptr ↦ rw some_ptr (record {
        wide = v'.wide;
        high = v'.high;
        column = omega (arith, v'.wide);
        row = omega (arith, v'.high);
      })
    ]

-- What is asked of the console.
pub data ConsoleOp : Type 0 where
  put : ℕ → ConsoleOp
  backspace : ConsoleOp
  wipe : ConsoleOp

abbrev pub serve : (ℕ → SsfnDst → Bytes → SsfnDst × Bytes) → List ConsoleOp → Console → Console
serve ssfn_putc [] c = c
serve ssfn_putc (put ch ∷ s) c = serve ssfn_putc s (console_putc ssfn_putc ch c)
serve ssfn_putc (backspace ∷ s) c = serve ssfn_putc s (console_backspace c)
serve ssfn_putc (wipe ∷ s) c = serve ssfn_putc s (console_clear c)

-- The font is horizontal: drawing a character moves the place to the right by at most 255 pixels.
module _ (ssfn_putc : ℕ → SsfnDst → Bytes → SsfnDst × Bytes) (advance : ℕ → ℕ)
    (advance-le : (ch : ℕ) → advance ch ≤ 255)
    (moves : (ch n m : ℕ) (d : SsfnDst) (b : Bytes)
      → d.x ≡ pos n
      → d.y ≡ pos m
      → ((ssfn_putc ch d b).0.x ≡ pos (n + advance ch)) × ((ssfn_putc ch d b).0.y ≡ pos m)) where
  draw_char-IsNear : (ch : ℕ) (c : Console) → IsInside c → IsNear (draw_char ssfn_putc ch c)
  unfolding draw_char
  draw_char-IsNear ch c v =
      let x_int : to_int c.x ≡ pos c.x = ground (arith, v.column, v.wide) in
      let y_int : to_int c.y ≡ pos c.y = ground (arith, v.row, v.high) in
      let (at_x, at_y) =
        moves ch c.x c.y (record c.dst { x = to_int c.x; y = to_int c.y }) c.pixels x_int y_int in
      elim (Bool-cases (ltb c.width (((c.x + advance ch) % 2 ^ 32 + 8) % 2 ^ 32))) [
        | inl full ↦
            rw (at_x, at_y, full)
              (record {
                wide = v.wide;
                high = v.high;
                column = omega (arith, v.wide);
                row = omega (arith, v.row, v.high);
              })
        | inr fits ↦
            let less = advance-le ch in
            rw (at_x, at_y, fits)
              (record {
                wide = v.wide;
                high = v.high;
                column = ground (arith, v.column, v.wide, less);
                row = omega (arith, v.row, v.high);
              })
      ]

  draw_char-ptr : (ch : ℕ) (c : Console) → (draw_char ssfn_putc ch c).ptr ≡ c.ptr
  unfolding draw_char
  draw_char-ptr ch c = ground arith

  putc-IsInside : (ch : ℕ) (c : Console) → IsInside c → IsInside (console_putc ssfn_putc ch c)
  unfolding console_putc
  putc-IsInside ch c v =
      let same = dirty-SamePlace c in
      let v' = of_place c (console_dirty c) same v in
      elim (Bool-cases ((c.ptr == 0) || not c.font_loaded)) [
        | inl off ↦ rw off v
        | inr on ↦
            let some_ptr : (c.ptr == 0) ≡ false = ground arith in
            let dirty_ptr : ((console_dirty c).ptr == 0) ≡ false =
              ap (λ (p : ℕ). p == 0) same.0 ∙ some_ptr in
            elim (Bool-cases (ch == b'\n')) [
              | inl newline ↦
                  rw (on, newline)
                    (near-IsInside (new_line (console_dirty c))
                      (new_line-IsNear (console_dirty c) v') dirty_ptr)
              | inr drawn ↦
                  rw (on, drawn)
                    (near-IsInside (draw_char ssfn_putc ch (console_dirty c))
                      (draw_char-IsNear ch (console_dirty c) v')
                      (ap (λ (p : ℕ). p == 0) (draw_char-ptr ch (console_dirty c)) ∙ dirty_ptr))
            ]
      ]

  -- Any sequence of characters, backspaces and clears keeps the cell at the cursor on a console of at
  -- least one cell whose size fits an `int`, with a horizontal font whose characters are at most 255
  -- pixels wide.
  pub serve-IsInside :
      (ops : List ConsoleOp) (c : Console) → IsInside c → IsInside (serve ssfn_putc ops c)
  serve-IsInside [] c v = v
  serve-IsInside (put ch ∷ s) c v =
      serve-IsInside s (console_putc ssfn_putc ch c) (putc-IsInside ch c v)
  serve-IsInside (backspace ∷ s) c v =
      serve-IsInside s (console_backspace c) (backspace-IsInside c v)
  serve-IsInside (wipe ∷ s) c v = serve-IsInside s (console_clear c) (wipe-IsInside c v)
