-- ===== src/Ata.antt =====
-- The disk driver of src/kernel/utils/utils.cpp down to the ports of the drive: the registers, the
-- polling of the status with its time-out, and the transfer of words. A 16-bit word of memory is the
-- cell at its address.
pub mod Bits
pub mod Words
pub mod Drive
pub mod Refinement
mod Tests
use Prim.Native.Nat.{bit_and, bit_or}
use solstice_os.Base.{
  ℕ, zero, suc, ◌+◌, ◌-◌, ◌*◌, ◌/◌, ◌%◌, ◌^◌, Bool, true, false, not, ◌||◌, ◌&&◌, if◌then◌else◌,
  ◌==◌, Option, none, some,
}
use solstice_os.Base.Store.{update}
use solstice_os.Io.{Ports}

-- How the polling for a sector ends.
pub data Poll : Type 0 where
  ready : Poll
  failed : Poll
  timed_out : Poll

-- A port number is a `uint16_t`.
abbrev pub register : (port offset : ℕ) → ℕ
register port offset = (port + offset) % 2 ^ 16

-- The tests of a status: an error or a fault, and data to be transferred.
unfoldable pub is_error : ℕ → Bool
is_error status = not (bit_and status 0x01 == 0) || not (bit_and status 0x20 == 0)

unfoldable pub is_ready : ℕ → Bool
is_ready status = (bit_and status 0x80 == 0) && not (bit_and status 0x08 == 0)

module _ {S : Type 0} (io : Ports S) (port : ℕ) where
  -- A read of the status whose value is not used.
  abbrev pub poll : S → S
  poll s = (io.inb (register port 7) s).1

  abbrev pub delay : S → S
  delay s = poll (poll (poll (poll s)))

  -- What is written to the registers before the transfer.
  unfoldable pub issue : (lba count command : ℕ) → S → S
  issue lba count command s =
      let s₁ = delay (io.outb (register port 6) (bit_or 0xF0 (bit_and (lba / 2 ^ 24) 0x0F)) s) in
      let s₂ = io.outb (register port 2) count s₁ in
      let s₃ = io.outb (register port 3) (lba % 2 ^ 8) s₂ in
      let s₄ = io.outb (register port 4) (lba / 2 ^ 8 % 2 ^ 8) s₃ in
      let s₅ = io.outb (register port 5) (lba / 2 ^ 16 % 2 ^ 8) s₄ in
      io.outb (register port 7) command s₅

  -- The loop `while (timeout > 0)`.
  unfoldable pub wait_ready : (timeout : ℕ) → S → Poll × S
  wait_ready zero s = (timed_out, s)
  wait_ready (suc timeout) s =
      let (status, s') = io.inb (register port 7) s in
      let rest = wait_ready timeout s' in
      if is_error status then (failed, s') else if is_ready status then (ready, s') else rest

  -- The loop over the words of a sector, to the addresses from `at` on.
  unfoldable pub read_words : (left at : ℕ) → S → (ℕ → ℕ) → S × (ℕ → ℕ)
  read_words zero at s m = (s, m)
  read_words (suc left) at s m =
      let (word, s') = io.inw port s in read_words left (at + 2) s' (update m at word)

  -- The loop over the sectors.
  unfoldable pub read_sectors : (left at : ℕ) → S → (ℕ → ℕ) → Poll × S × (ℕ → ℕ)
  read_sectors zero at s m = (ready, s, m)
  read_sectors (suc left) at s m =
      let (answer, s₁) = wait_ready 100000 s in
      elim answer [
        | ready ↦
            let (s₂, m') = read_words 256 at s₁ m in read_sectors left (at + 512) (delay s₂) m'
        | failed ↦ (failed, s₁, m)
        | timed_out ↦ (timed_out, s₁, m)
      ]

  -- `read_disk`, with how it ended, which the source only prints.
  unfoldable pub read_disk_ports : (lba count target_address : ℕ) → S → (ℕ → ℕ) → Poll × S × (ℕ → ℕ)
  read_disk_ports lba count target_address s m =
      read_sectors count target_address (issue lba count 0x20 s) m

  unfoldable pub write_words : (left at : ℕ) → (ℕ → ℕ) → S → S
  write_words zero at m s = s
  write_words (suc left) at m s = write_words left (at + 2) m (io.outw port (m at) s)

  unfoldable pub write_sectors : (left at : ℕ) → (ℕ → ℕ) → S → Poll × S
  write_sectors zero at m s = (ready, s)
  write_sectors (suc left) at m s =
      let (answer, s₁) = wait_ready 100000 s in
      elim answer [
        | ready ↦ write_sectors left (at + 512) m (delay (write_words 256 at m s₁))
        | failed ↦ (failed, s₁)
        | timed_out ↦ (timed_out, s₁)
      ]

  -- The wait for the end of the flush, none if it does not end within `fuel` polls.
  unfoldable pub flush_wait : (fuel : ℕ) → S → Option S
  flush_wait zero s = none
  flush_wait (suc fuel) s =
      let (status, s') = io.inb (register port 7) s in
      let rest = flush_wait fuel s' in if bit_and status 0x80 == 0 then some s' else rest

  -- `write_disk`, with how it ended.
  unfoldable pub write_disk_ports :
      (fuel lba count source_address : ℕ) → (ℕ → ℕ) → S → Poll × Option S
  write_disk_ports fuel lba count source_address m s =
      let (answer, s') = write_sectors count source_address m (issue lba count 0x30 s) in
      elim answer [
        | ready ↦ (ready, flush_wait fuel (io.outb (register port 7) 0xE7 s'))
        | failed ↦ (failed, some s')
        | timed_out ↦ (timed_out, some s')
      ]
