-- ===== src/Ata/Refinement.antt =====
-- The port level of `read_disk` of src/kernel/utils/utils.cpp implements the transfer of whole sectors
-- that the file system stands on.
use solstice_os.Base.{ℕ, ◌+◌, ◌*◌, ◌%◌, ◌^◌, ◌<◌, ◌≡◌, ◌⊎◌, ◌≤◌, ap, ◌∙◌, true, ltb, arith}
use solstice_os.Ext2.Disk.{Disk, Buffer, read_disk, read16}
use solstice_os.Io.{Ports}
use solstice_os.Ata.{ready, read_disk_ports}
use solstice_os.Ata.Drive.{Serves, read_disk_ports-IsRead}

-- The little-endian words of a disk.
abbrev pub words_of : Disk → ℕ → ℕ
words_of d k = d (2 * k) + 256 * d (2 * k + 1)

-- For at least one sector, with a drive that serves the sectors of a disk, and gets each ready within
-- the time-out, `read_disk` at the ports ends without an error, leaves in memory exactly the words of the bytes that the transfer
-- of whole sectors gives, and changes nothing else.
pub read_disk_ports-read_disk :
    {S : Type 0} (io : Ports S) (port : ℕ) (d : Disk) (drive : Serves io port (words_of d))
    (regs : ℕ → ℕ) (lba count target_address : ℕ) (s : S) (m : ℕ → ℕ) (b : Buffer)
    → 0 < count
    → count < 2 ^ 8
    → drive.Set regs s
    → let (answer, _, out) = read_disk_ports io port lba count target_address s m in
      (answer ≡ ready)
      × ((i : ℕ)
          → i < count * 256
          → out (target_address + 2 * i) ≡ read16 (read_disk lba count d b) (2 * i))
      × ((a : ℕ) → (a < target_address) ⊎ (target_address + 2 * (count * 256) ≤ a) → out a ≡ m a)
unfolding read_disk
read_disk_ports-read_disk io port d drive regs lba count target_address s m b some_sector small
      idle =
    let (answer, got) =
      read_disk_ports-IsRead io port (words_of d) drive regs lba count target_address s m
        some_sector idle in
    (
      answer,
      λ i less.
          let whole : count % 2 ^ 8 ≡ count = omega arith in
          let low : ltb (2 * i) (count * 512) ≡ true = ground arith in
          let high : ltb (2 * i + 1) (count * 512) ≡ true = ground arith in
          let place : 2 * (lba % 2 ^ 28 * 256 + i) ≡ lba % 2 ^ 28 * 512 + 2 * i = omega arith in
          let after : lba % 2 ^ 28 * 512 + 2 * i + 1 ≡ lba % 2 ^ 28 * 512 + (2 * i + 1) =
            omega arith in
          got.inside i less
          ∙ rw (whole, low, high)
              (ap (λ (t : ℕ). d t + 256 * d (t + 1)) place
                ∙ ap (λ (t : ℕ). d (lba % 2 ^ 28 * 512 + 2 * i) + 256 * d t) after),
      got.outside,
    )
