-- ===== src/Interrupts/Timer.antt =====
-- The timer of src/kernel/idt/timer.cpp, with `remap_pic` of src/kernel/utils/utils.cpp, over the
-- ports. What happens while the processor halts is a parameter.
use solstice_os.Base.{
  ℕ, zero, suc, ◌+◌, ◌*◌, ◌/◌, ◌%◌, ◌^◌, ◌<◌, ◌≤◌, ◌≡◌, ltb, if◌then◌else◌, List, [], ◌∷◌, ◌++◌,
  Option, none, some, arith, refl,
}
use native.Mathlib.Nat.{div-mul-le_self, div-lt_iff_lt-mul, le-div_iff_mul-le}
use solstice_os.Io.{Ports, logged}
use solstice_os.Interrupts.{Kernel}

module _ {S : Type 0} (io : Ports S) where
  unfoldable pub init_timer : (frequency : ℕ) → S → S
  init_timer frequency s =
      let divisor = 1193180 / frequency in
      let s₁ = io.outb 0x43 0x36 s in
      let s₂ = io.outb 0x40 (divisor % 2 ^ 8) s₁ in io.outb 0x40 (divisor / 2 ^ 8 % 2 ^ 8) s₂

  unfoldable pub remap_pic : S → S
  remap_pic s =
      let s₁ = io.outb 0xA0 0x11 (io.outb 0x20 0x11 s) in
      let s₂ = io.outb 0xA1 0x28 (io.outb 0x21 0x20 s₁) in
      let s₃ = io.outb 0xA1 0x02 (io.outb 0x21 0x04 s₂) in
      let s₄ = io.outb 0xA1 0x01 (io.outb 0x21 0x01 s₃) in io.outb 0xA1 0xEF (io.outb 0x21 0xF8 s₄)

  -- The loop of `sleep`, none if it does not end within `fuel` halts.
  unfoldable pub halt_until :
      (halt : Kernel S → Kernel S) (fuel target : ℕ) → Kernel S → Option (Kernel S)
  halt_until halt zero target k = if ltb k.timer_ticks target then none else some k
  halt_until halt (suc fuel) target k =
      let rest = halt_until halt fuel target (halt k) in
      if ltb k.timer_ticks target then rest else some k

  -- The ports with the two masks `sleep` found.
  abbrev pub with_masks : (master_mask slave_mask : ℕ) → Kernel S → Kernel S
  with_masks master_mask slave_mask k = record k {
    ports = io.outb 0xA1 slave_mask (io.outb 0x21 master_mask k.ports);
  }

  -- The product with 1000 is a `uint32_t`, and the sum is 64 bits wide.
  abbrev pub wake_time : (milliseconds : ℕ) → Kernel S → ℕ
  wake_time milliseconds k = (k.timer_ticks + milliseconds * 1000 % 2 ^ 32) % 2 ^ 64

  unfoldable pub sleep :
      (halt : Kernel S → Kernel S) (fuel milliseconds : ℕ) → Kernel S → Option (Kernel S)
  sleep halt fuel milliseconds k =
      let target = wake_time milliseconds k in
      let (master_mask, s₁) = io.inb 0x21 k.ports in
      let (slave_mask, s₂) = io.inb 0xA1 s₁ in
      let masked = record k { ports = io.outb 0xA1 0xFF (io.outb 0x21 0xFE s₂) } in
      elim (halt_until halt fuel target masked) [
        | none ↦ none
        | some k' ↦ some (with_masks master_mask slave_mask k')
      ]

-- For a frequency from 19 Hz up to that of the timer's own clock, `init_timer` selects channel 0 and sends
-- the low and then the high byte of a divisor between 1 and 65535. With it the clock ticks at the
-- frequency that was asked for or faster, and with the next larger divisor it would be slower than that.
pub init_timer-divisor :
    {S : Type 0} (io : Ports S) (frequency : ℕ) (s : S) (log : List (ℕ × ℕ))
    → 19 ≤ frequency
    → frequency ≤ 1193180
    → (low : ℕ) × (high : ℕ) × (low < 256)
      × (high < 256)
      × (0 < low + 256 * high)
      × ((low + 256 * high) * frequency ≤ 1193180)
      × (1193180 < (low + 256 * high + 1) * frequency)
      × ((init_timer (logged io) frequency (s, log)).1
          ≡ ((log ++ ((0x43, 0x36) ∷ [])) ++ ((0x40, low) ∷ [])) ++ ((0x40, high) ∷ []))
unfolding init_timer
init_timer-divisor io frequency s log from to =
    let d = 1193180 / frequency in
    let some_rate : 0 < frequency = omega (arith, from) in
    let at_most : d * frequency ≤ 1193180 = div-mul-le_self 1193180 frequency in
    let next : 1193180 < (d + 1) * frequency = (div-lt_iff_lt-mul some_rate).0 (omega arith) in
    let some_divisor : 0 < d = (le-div_iff_mul-le some_rate).1 (omega (arith, to)) in
    let small : d < 2 ^ 16 = (div-lt_iff_lt-mul some_rate).1 (omega (arith, from)) in
    let whole : d % 2 ^ 8 + 256 * (d / 2 ^ 8 % 2 ^ 8) ≡ d = omega (arith, small) in
    (
      d % 2 ^ 8,
      d / 2 ^ 8 % 2 ^ 8,
      omega arith,
      omega arith,
      rw whole some_divisor,
      rw whole at_most,
      rw whole next,
      refl,
    )

-- A halt takes the count of ticks on, unless it has its largest value.
abbrev pub Advances : {S : Type 0} → (Kernel S → Kernel S) → Type 0
Advances {S} halt =
    (k : Kernel S) → k.timer_ticks + 1 < 2 ^ 64 → k.timer_ticks < (halt k).timer_ticks
