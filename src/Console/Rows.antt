-- ===== src/Console/Rows.antt =====
-- The pixels of src/kernel/misc/console.cpp after scrolling.
use native.Mathlib.Nat.{mul-le-mul_right}
use solstice_os.Base.{
  ℕ, zero, suc, ◌+◌, ◌-◌, ◌*◌, ◌/◌, ◌%◌, ◌^◌, ◌<◌, ◌≤◌, ◌≡◌, ◌⊎◌, refl, ap, ◌∙◌, false, ltb, ◌==◌,
  arith, inl, inr, Bool-cases, if◌then◌else◌,
}
use solstice_os.Base.Store.{update}
use solstice_os.Util.Bytes.{Bytes, memmove, memmove-IsCopied}
use solstice_os.Console.{
  Console, console_scroll, console_fill_rows, fill_row, fill_rows, console_bg, last_row,
}

fill_row-out :
    (left at color : ℕ) (m : Bytes) (p : ℕ)
    → (p < at) ⊎ (at + 4 * left ≤ p)
    → fill_row left at color m p ≡ m p
unfolding fill_row
fill_row-out zero at color m p out = refl
fill_row-out (suc left) at color m p out =
    ground (arith, fill_row-out left (at + 4) color (update m at color) p)

fill_row-in :
    (left at color : ℕ) (m : Bytes) (k : ℕ)
    → k < left
    → fill_row left at color m (at + 4 * k) ≡ color
unfolding fill_row
fill_row-in zero at color m k less = absurd (omega arith)
fill_row-in (suc left) at color m zero less =
    fill_row-out left (at + 4) color (update m at color) (at + 4 * 0) (inl (omega arith))
    ∙ ground arith
fill_row-in (suc left) at color m (suc k) less =
    let e : at + 4 * suc k ≡ at + 4 + 4 * k = omega arith in
    ap (λ (p : ℕ). fill_row left (at + 4) color (update m at color) p) e
    ∙ fill_row-in left (at + 4) color (update m at color) k (omega arith)

fill_rows-out :
    (left ptr pitch row color : ℕ) (m : Bytes) (p : ℕ)
    → row + left < 2 ^ 32
    → (p < ptr + row * pitch) ⊎ (ptr + (row + left) * pitch ≤ p)
    → fill_rows left ptr pitch row color m p ≡ m p
unfolding fill_rows
fill_rows-out zero ptr pitch row color m p small out = refl
fill_rows-out (suc left) ptr pitch row color m p small out =
    let next : (row + 1) % 2 ^ 32 ≡ row + 1 = omega arith in
    let painted = fill_row (pitch / 4) (ptr + row * pitch) color m in
    let later : (p < ptr + (row + 1) * pitch) ⊎ (ptr + (row + 1 + left) * pitch ≤ p) = elim out [
      | inl before ↦ inl (omega arith)
      | inr behind ↦ inr (omega arith)
    ] in
    let here : (p < ptr + row * pitch) ⊎ (ptr + row * pitch + 4 * (pitch / 4) ≤ p) = elim out [
      | inl before ↦ inl before
      | inr behind ↦ inr (omega arith)
    ] in
    rw next (
      fill_rows-out left ptr pitch (row + 1) color painted p (omega arith) later
      ∙ fill_row-out (pitch / 4) (ptr + row * pitch) color m p here)

fill_rows-in :
    (left ptr pitch row color : ℕ) (m : Bytes) (r k : ℕ)
    → row + left < 2 ^ 32
    → row ≤ r
    → r < row + left
    → k < pitch / 4
    → fill_rows left ptr pitch row color m (ptr + r * pitch + 4 * k) ≡ color
unfolding fill_rows
fill_rows-in zero ptr pitch row color m r k small low high less = absurd (omega arith)
fill_rows-in (suc left) ptr pitch row color m r k small low high less =
    let next : (row + 1) % 2 ^ 32 ≡ row + 1 = omega arith in
    let painted = fill_row (pitch / 4) (ptr + row * pitch) color m in
    elim (Bool-cases (r == row)) [
      | inl here ↦
          let e : r ≡ row = ground arith in
          rw (next, e)
            (fill_rows-out left ptr pitch (row + 1) color painted (ptr + row * pitch + 4 * k)
                (omega arith) (inl (omega arith))
              ∙ fill_row-in (pitch / 4) (ptr + row * pitch) color m k less)
      | inr later ↦ rw next (
          fill_rows-in left ptr pitch (row + 1) color painted r k (omega arith) (ground arith)
            (omega arith) less)
    ]

-- A console whose pixels fill at most 2 ^ 32 bytes.
pub record IsSized (c : Console) : Type 0 where
  pub some_ptr : (c.ptr == 0) ≡ false
  pub high : 16 ≤ c.height
  pub fits : c.height * c.pitch < 2 ^ 32
  pub some_pitch : 4 ≤ c.pitch

-- Scrolling moves the row of pixels `r + 16` to `r`, and gives the rows of the last line of text the
-- background's color, on a console whose pixels fill less than 2 ^ 32 bytes.
pub console_scroll-pixel :
    (c : Console) (r k : ℕ)
    → IsSized c
    → r < c.height
    → k < c.pitch / 4
    → (console_scroll c).pixels (c.ptr + r * c.pitch + 4 * k) ≡ (
        if ltb (r + 16) c.height then c.pixels (c.ptr + (r + 16) * c.pitch + 4 * k) else console_bg)
unfolding console_scroll console_fill_rows
console_scroll-pixel c r k v below less =
    let t = c.height - 16 in
    let h : c.height ≡ t + 16 = omega (arith, v.high) in
    let area : c.height * c.pitch ≡ (t + 16) * c.pitch = ap (λ (n : ℕ). n * c.pitch) h in
    let wide : 4 * c.height ≤ c.pitch * c.height = mul-le-mul_right c.height v.some_pitch in
    let top : last_row c ≡ t = omega (arith, v.high, v.fits, wide) in
    let size : t * c.pitch % 2 ^ 32 ≡ t * c.pitch = omega (arith, area, v.fits) in
    let up : 16 * c.pitch % 2 ^ 32 ≡ 16 * c.pitch = omega (arith, area, v.fits) in
    let pixels = memmove c.ptr (c.ptr + 16 * c.pitch) (t * c.pitch) c.pixels in
    let moved = memmove-IsCopied c.ptr (c.ptr + 16 * c.pitch) (t * c.pitch) c.pixels in
    let small : t + 16 < 2 ^ 32 = omega (arith, v.fits, wide, h) in
    elim (Bool-cases (ltb (r + 16) c.height)) [
      | inl upper ↦
          let before : (r + 1) * c.pitch ≤ t * c.pitch = mul-le-mul_right c.pitch (ground arith) in
          let from : c.ptr + r * c.pitch + 4 * k ≡ c.ptr + (r * c.pitch + 4 * k) = omega arith in
          let to : c.ptr + 16 * c.pitch + (r * c.pitch + 4 * k)
              ≡ c.ptr + (r + 16) * c.pitch + 4 * k =
            omega arith in
          rw (v.some_ptr, top, size, up, upper)
            (fill_rows-out 16 c.ptr c.pitch t console_bg pixels (c.ptr + r * c.pitch + 4 * k) small
                (inl (omega (arith, before, less)))
              ∙ ap pixels from
              ∙ moved.inside (r * c.pitch + 4 * k) (omega (arith, before, less))
              ∙ ap c.pixels to)
      | inr lower ↦
          rw (v.some_ptr, top, size, up, lower)
            (fill_rows-in 16 c.ptr c.pitch t console_bg pixels r k small (ground arith)
              (omega (arith, below, h)) less)
    ]
