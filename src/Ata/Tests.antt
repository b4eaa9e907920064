-- ===== src/Ata/Tests.antt =====
-- An instance of the driver's theorem: a drive that has each sector ready at the first poll.
use solstice_os.Base.{
  ℕ, ◌+◌, ◌*◌, ◌%◌, ◌^◌, ◌<◌, ◌≤◌, ◌≡◌, ◌⊎◌, refl, ap, arith, if◌then◌else◌, ◌==◌, true, false,
}
use solstice_os.Base.Store.{update}
use solstice_os.Ext2.Disk.{Disk, read_disk, read16}
use solstice_os.Io.{Ports}
use solstice_os.Ata.{ready, read_disk_ports, is_error, is_ready, register}
use solstice_os.Ata.Bits.{lba_of}
use solstice_os.Ata.Drive.{Serves}
use solstice_os.Ata.Refinement.{words_of, read_disk_ports-read_disk}

-- The registers, and the number of the word that is read next.
record Fast : Type 0 where
  regs : ℕ → ℕ
  at : ℕ

abbrev disk : Disk
disk a = a % 256

-- The ports are those of the first controller, 0x1F0 to 0x1F7. The status is 0x58: ready, with data.
abbrev fast : Ports Fast
fast = record {
  inb = λ port s. (0x58, s);
  inw = λ port s. (words_of disk s.at, record s { at = s.at + 1 });
  outb = λ port v s.
      if port == 0x1F7
      then record s { at = lba_of s.regs * 256 }
      else record s { regs = λ k. if 0x1F0 + k == port then v else s.regs k };
  outw = λ port v s. s;
}

fast_status : (is_error 0x58 ≡ false) × (is_ready 0x58 ≡ true)
unfolding is_error is_ready
fast_status = (refl, refl)

fast_write :
    (regs : ℕ → ℕ) (k v : ℕ) (s : Fast)
    → 2 ≤ k
    → k ≤ 6
    → ((i : ℕ) → 2 ≤ i → i ≤ 6 → s.regs i ≡ regs i)
    → (i : ℕ) → 2 ≤ i
    → i ≤ 6
    → (fast.outb (register 0x1F0 k) v s).regs i ≡ update regs k v i
fast_write regs k v s low high idle i low' high' =
    let port : (0x1F0 + k) % 2 ^ 16 ≡ 0x1F0 + k = omega arith in
    let no_command : (0x1F0 + k == 0x1F7) ≡ false = ground arith in
    rw (port, no_command) (ground (arith, idle i low' high'))

abbrev served : Serves fast 0x1F0 (words_of disk)
served = record {
  Set = λ regs s. (k : ℕ) → (2 ≤ k) → (k ≤ 6) → s.regs k ≡ regs k;
  Busy = λ lba left n s. (n ≡ 0) × (s.at ≡ lba * 256);
  Sending = λ lba left j s. s.at ≡ lba * 256 + j;
  keeps = λ regs s idle. idle;
  write = fast_write;
  start = λ regs left s count idle. (
    0,
    omega arith,
    (
      refl,
      rw
          (
            idle 3 (omega arith) (omega arith),
            idle 4 (omega arith) (omega arith),
            idle 5 (omega arith) (omega arith),
            idle 6 (omega arith) (omega arith),
          )
          refl,
    ),
  );
  busy = λ lba left n s b. absurd (omega (arith, b));
  done = λ lba left s b. (fast_status.0, fast_status.1, omega (arith, b));
  word = λ lba left j s less e. (ap (words_of disk) e, omega (arith, e));
  next = λ lba left s e. (0, omega arith, (refl, omega (arith, e)));
}

abbrev at_start : Fast
at_start = record { regs = λ k. 0; at = 0 }

read_disk_ports-read_disk_example :
    let (answer, _, out) = read_disk_ports fast 0x1F0 5 2 0x7000 at_start (λ a. 0) in
    (answer ≡ ready)
    × ((i : ℕ) → i < 512 → out (0x7000 + 2 * i) ≡ read16 (read_disk 5 2 disk (λ a. 0)) (2 * i))
    × ((a : ℕ) → (a < 0x7000) ⊎ (0x7000 + 2 * 512 ≤ a) → out a ≡ 0)
read_disk_ports-read_disk_example =
    read_disk_ports-read_disk fast 0x1F0 disk served (λ k. 0) 5 2 0x7000 at_start (λ a. 0) (λ a. 0)
      (omega arith) (omega arith) (λ k low high. refl)
