-- ===== src/Input/Mouse.antt =====
-- The mouse branch of `interrupt_handler` in src/kernel/idt/idt.cpp.
use Prim.Native.Nat.{bit_and}
use solstice_os.Base.{
  ℕ, ◌+◌, ◌-◌, ◌<◌, not, ◌&&◌, if◌then◌else◌, ltb, ◌==◌, arith, inl, inr, Bool-cases,
}
use solstice_os.Base.Int.{ℤ, pos, negsuc, ◌+ℤ◌, ◌-ℤ◌, ◌≤ℤ◌, ltb_ℤ, +ℤ_parts, -ℤ_parts}
use solstice_os.Base.Store.{update}

-- The globals `mouse_cycle`, `mouse_packet` (as the bytes that came in) and the pointer's.
pub record Mouse : Type 0 where
  pub cycle : ℕ
  pub packet : ℕ → ℕ
  pub x : ℤ
  pub y : ℤ
  pub buttons : ℕ

-- A byte read as an `int8_t`.
abbrev pub int8 : ℕ → ℤ
int8 b = if ltb b 128 then pos b else negsuc (255 - b)

-- `if (v < 0) v = 0;` and then `if (v > max) v = max;`.
unfoldable pub keep : (max : ℤ) → ℤ → ℤ
keep max v = let v' = if ltb_ℤ v (pos 0) then pos 0 else v in if ltb_ℤ max v' then max else v'

-- The handler on a byte `byte`, where the status port says that it is the mouse's.
unfoldable pub mouse_data : (width height byte : ℕ) → Mouse → Mouse
mouse_data width height byte m =
    let packet = update m.packet m.cycle byte in
    let stored = record m { packet = packet; cycle = m.cycle + 1 } in
    let whole = record m { packet = packet; cycle = 0 } in
    let flags = packet 0 in
    if m.cycle == 0 && bit_and byte 0x08 == 0
    then m
    else if not (m.cycle + 1 == 3)
    then stored
    else if not (bit_and flags 0xc0 == 0)
    then whole
    else record whole {
      buttons = bit_and flags 0x07;
      x = keep (pos width -ℤ pos 1) (m.x +ℤ int8 (packet 1));
      y = keep (pos height -ℤ pos 1) (m.y -ℤ int8 (packet 2));
    }

-- The pointer is on the screen, and the packet has a place for the next byte.
pub record IsOnScreen (width height : ℕ) (m : Mouse) : Type 0 where
  pub cycle : m.cycle < 3
  pub left : pos 0 ≤ℤ m.x
  pub right : m.x +ℤ pos 1 ≤ℤ pos width
  pub top : pos 0 ≤ℤ m.y
  pub bottom : m.y +ℤ pos 1 ≤ℤ pos height

keep-inside :
    (size : ℕ) (v : ℤ)
    → 0 < size
    → (pos 0 ≤ℤ keep (pos size -ℤ pos 1) v) × (keep (pos size -ℤ pos 1) v +ℤ pos 1 ≤ℤ pos size)
unfolding keep
keep-inside size v some =
    let max = pos size -ℤ pos 1 in
    let v' = if ltb_ℤ v (pos 0) then pos 0 else v in
    let low : pos 0 ≤ℤ v' = ground arith in
    let a = -ℤ_parts (pos size) (pos 1) in
    let b = +ℤ_parts max (pos 1) in
    let c = +ℤ_parts v' (pos 1) in
    elim (Bool-cases (ltb_ℤ max v')) [
      | inl behind ↦ rw behind (omega (arith, a), omega (arith, a, b))
      | inr inside ↦ rw inside (low, ground (arith, a, c))
    ]

-- No byte from the mouse takes the pointer off a screen that has pixels, or the packet's index out of
-- its 3 bytes.
pub mouse_data-IsOnScreen :
    (width height byte : ℕ) (m : Mouse)
    → 0 < width
    → 0 < height
    → IsOnScreen width height m
    → IsOnScreen width height (mouse_data width height byte m)
unfolding mouse_data
mouse_data-IsOnScreen width height byte m some_width some_height is =
    let packet = update m.packet m.cycle byte in
    elim (Bool-cases (m.cycle == 0 && bit_and byte 0x08 == 0)) [
      | inl lost ↦ rw lost is
      | inr heard ↦ elim (Bool-cases (not (m.cycle + 1 == 3))) [
        | inl more ↦
            rw (heard, more)
              (record {
                cycle = ground (arith, is.cycle);
                left = is.left;
                right = is.right;
                top = is.top;
                bottom = is.bottom;
              })
        | inr last ↦ elim (Bool-cases (not (bit_and (packet 0) 0xc0 == 0))) [
          | inl over ↦
              rw (heard, last, over)
                (record {
                  cycle = omega arith;
                  left = is.left;
                  right = is.right;
                  top = is.top;
                  bottom = is.bottom;
                })
          | inr good ↦
              let kx = keep-inside width (m.x +ℤ int8 (packet 1)) some_width in
              let ky = keep-inside height (m.y -ℤ int8 (packet 2)) some_height in
              rw (heard, last, good)
                (record {
                  cycle = omega arith;
                  left = kx.0;
                  right = kx.1;
                  top = ky.0;
                  bottom = ky.1;
                })
        ]
      ]
    ]
