-- ===== src/Ata/Drive.antt =====
-- `read_disk` of src/kernel/utils/utils.cpp with a drive that serves the request.
use Prim.Native.Nat.{bit_and, bit_or}
use solstice_os.Base.{
  ℕ, zero, suc, ◌+◌, ◌*◌, ◌/◌, ◌%◌, ◌^◌, ◌<◌, ◌≤◌, ◌≡◌, refl, ap, subst, ◌∙◌, true, false, arith,
}
use solstice_os.Base.Store.{update}
use solstice_os.Ata.Words.{IsRead, IsRead-one, IsRead-append}
use solstice_os.Io.{Ports}
use solstice_os.Ata.{
  ready, register, is_error, is_ready, poll, delay, issue, wait_ready, read_words, read_sectors,
  read_disk_ports,
}
use solstice_os.Ata.Bits.{lba_of, top_register, lba_bytes}

-- What the ATA protocol promises of a drive whose sector `lba` has the word `words (lba * 256 + j)` at
-- `j`. `Set regs` holds when the drive is idle and its registers have the values `regs`; `Busy lba left n`
-- when `left` sectors are to come and the first of them, `lba`, is ready within `n` more polls; and
-- `Sending lba left j` when `j` words of the sector have been read and `left` sectors come after it. A
-- count of 0 stands for 256 sectors, which the source does not ask for.
pub record Serves {S : Type 0} (io : Ports S) (port : ℕ) (words : ℕ → ℕ) : Type 1 where
  pub Set : (ℕ → ℕ) → S → Type 0
  pub Busy : (lba left n : ℕ) → S → Type 0
  pub Sending : (lba left j : ℕ) → S → Type 0
  pub keeps : (regs : ℕ → ℕ) (s : S) → Set regs s → Set regs (poll io port s)
  pub write :
      (regs : ℕ → ℕ) (k v : ℕ) (s : S)
      → 2 ≤ k
      → k ≤ 6
      → Set regs s
      → Set (update regs k v) (io.outb (register port k) v s)
  pub start :
      (regs : ℕ → ℕ) (left : ℕ) (s : S)
      → regs 2 ≡ suc left
      → Set regs s
      → (n : ℕ) × (n < 100000) × Busy (lba_of regs) (suc left) n (io.outb (register port 7) 0x20 s)
  pub busy :
      (lba left n : ℕ) (s : S)
      → Busy lba left (suc n) s
      → (is_error (io.inb (register port 7) s).0 ≡ false)
        × (is_ready (io.inb (register port 7) s).0 ≡ false)
        × Busy lba left n (poll io port s)
  pub done :
      (lba left : ℕ) (s : S)
      → Busy lba (suc left) 0 s
      → (is_error (io.inb (register port 7) s).0 ≡ false)
        × (is_ready (io.inb (register port 7) s).0 ≡ true)
        × Sending lba left 0 (poll io port s)
  pub word :
      (lba left j : ℕ) (s : S)
      → j < 256
      → Sending lba left j s
      → ((io.inw port s).0 ≡ words (lba * 256 + j)) × Sending lba left (suc j) (io.inw port s).1
  pub next :
      (lba left : ℕ) (s : S)
      → Sending lba (suc left) 256 s
      → (n : ℕ) × (n < 100000) × Busy (lba + 1) (suc left) n (delay io port s)

module _ {S : Type 0} (io : Ports S) (port : ℕ) (words : ℕ → ℕ) (drive : Serves io port words) where
  wait_ready-Sending :
      (lba left n timeout : ℕ) (s : S)
      → n < timeout
      → drive.Busy lba (suc left) n s
      → ((wait_ready io port timeout s).0 ≡ ready)
        × drive.Sending lba left 0 (wait_ready io port timeout s).1
  unfolding wait_ready
  wait_ready-Sending lba left n zero s less b = absurd (omega arith)
  wait_ready-Sending lba left zero (suc timeout) s less b =
      let (no_error, is_up, sending) = drive.done lba left s b in
      rw (no_error, is_up) (refl, sending)
  wait_ready-Sending lba left (suc n) (suc timeout) s less b =
      let (no_error, not_yet, busy) = drive.busy lba (suc left) n s b in
      rw (no_error, not_yet)
        (wait_ready-Sending lba left n timeout (poll io port s) (omega arith) busy)

  read_words-IsRead :
      (left j lba after at : ℕ) (s : S) (m : ℕ → ℕ)
      → j + left ≡ 256
      → drive.Sending lba after j s
      → IsRead words (lba * 256 + j) left at m (read_words io port left at s m).1
        × drive.Sending lba after 256 (read_words io port left at s m).0
  unfolding read_words
  read_words-IsRead zero j lba after at s m sum b = (
    record { inside = λ i less. absurd (omega arith); outside = λ a out. refl },
    subst (λ (t : ℕ). drive.Sending lba after t s) (let e : j ≡ 256 = omega arith in e) b,
  )
  read_words-IsRead (suc left) j lba after at s m sum b =
      let (e, b') = drive.word lba after j s (omega arith) b in
      let m' = update m at (io.inw port s).0 in
      let (rest, end) =
        read_words-IsRead left (suc j) lba after (at + 2) (io.inw port s).1 m' (omega arith) b' in
      (
        subst
            (λ (c : ℕ).
              IsRead words (lba * 256 + j) c at m
                (read_words io port left (at + 2) (io.inw port s).1 m').1)
            (let count : 1 + left ≡ suc left = omega arith in count)
            (IsRead-append words (lba * 256 + j) 1 left at m m' _
              (IsRead-one words (lba * 256 + j) at (io.inw port s).0 m e)
              (subst
                (λ (f : ℕ).
                  IsRead words f left (at + 2) m'
                    (read_words io port left (at + 2) (io.inw port s).1 m').1)
                (let number : lba * 256 + suc j ≡ lba * 256 + j + 1 = omega arith in number) rest)),
        end,
      )

  -- One sector, and those that come after it.
  read_sectors-step :
      (left lba n at : ℕ) (s : S) (m : ℕ → ℕ)
      → n < 100000
      → drive.Busy lba (suc left) n s
      → (s' : S) × (m' : ℕ → ℕ) × (read_sectors io port (suc left) at s m
          ≡ read_sectors io port left (at + 512) (delay io port s') m')
        × IsRead words (lba * 256) 256 at m m'
        × drive.Sending lba left 256 s'
  unfolding read_sectors
  read_sectors-step left lba n at s m less b =
      let (answer, sending) = wait_ready-Sending lba left n 100000 s less b in
      let s₁ = (wait_ready io port 100000 s).1 in
      let (got, end) = read_words-IsRead 256 0 lba left at s₁ m (omega arith) sending in
      let m' = (read_words io port 256 at s₁ m).1 in
      (
        (read_words io port 256 at s₁ m).0,
        m',
        rw (answer, read_sectors) refl,
        subst (λ (f : ℕ). IsRead words f 256 at m m')
            (let number : lba * 256 + 0 ≡ lba * 256 = omega arith in number) got,
        end,
      )

  read_sectors-IsRead :
      (left lba n at : ℕ) (s : S) (m : ℕ → ℕ)
      → n < 100000
      → drive.Busy lba (suc left) n s
      → ((read_sectors io port (suc left) at s m).0 ≡ ready)
        × IsRead words (lba * 256) (suc left * 256) at m (read_sectors io port (suc left) at s m).2
  unfolding read_sectors
  read_sectors-IsRead zero lba n at s m less b =
      let (s', m', e, got, _) = read_sectors-step 0 lba n at s m less b in rw e (refl, got)
  read_sectors-IsRead (suc left) lba n at s m less b =
      let (s', m', e, got, end) = read_sectors-step (suc left) lba n at s m less b in
      let (n', less', b') = drive.next lba left s' end in
      let (answer, rest) =
        read_sectors-IsRead left (lba + 1) n' (at + 512) (delay io port s') m' less' b' in
      let out = (read_sectors io port (suc left) (at + 512) (delay io port s') m').2 in
      rw e (
        answer,
        subst (λ (c : ℕ). IsRead words (lba * 256) c at m out)
            (let count : 256 + suc left * 256 ≡ suc (suc left) * 256 = omega arith in count)
            (IsRead-append words (lba * 256) 256 (suc left * 256) at m m' out got (
              subst (λ (f : ℕ). IsRead words f (suc left * 256) (at + 512) m' out)
                (let number : (lba + 1) * 256 ≡ lba * 256 + 256 = omega arith in number) rest)),
      )

  issue-Busy :
      (regs : ℕ → ℕ) (lba left : ℕ) (s : S)
      → drive.Set regs s
      → (n : ℕ) × (n < 100000)
        × drive.Busy (lba % 2 ^ 28) (suc left) n (issue io port lba (suc left) 0x20 s)
  unfolding issue
  issue-Busy regs lba left s idle =
      let top = bit_or 0xF0 (bit_and (lba / 2 ^ 24) 0x0F) in
      let regs₁ = update regs 6 top in
      let b₁ = drive.write regs 6 top s (omega arith) (omega arith) idle in
      let k₁ = drive.keeps regs₁ _ b₁ in
      let k₂ = drive.keeps regs₁ _ k₁ in
      let k₃ = drive.keeps regs₁ _ k₂ in
      let k₄ = drive.keeps regs₁ _ k₃ in
      let b₂ = drive.write regs₁ 2 (suc left) _ (omega arith) (omega arith) k₄ in
      let regs₂ = update regs₁ 2 (suc left) in
      let b₃ = drive.write regs₂ 3 (lba % 2 ^ 8) _ (omega arith) (omega arith) b₂ in
      let regs₃ = update regs₂ 3 (lba % 2 ^ 8) in
      let b₄ = drive.write regs₃ 4 (lba / 2 ^ 8 % 2 ^ 8) _ (omega arith) (omega arith) b₃ in
      let regs₄ = update regs₃ 4 (lba / 2 ^ 8 % 2 ^ 8) in
      let b₅ = drive.write regs₄ 5 (lba / 2 ^ 16 % 2 ^ 8) _ (omega arith) (omega arith) b₄ in
      let regs₅ = update regs₄ 5 (lba / 2 ^ 16 % 2 ^ 8) in
      let (n, less, busy) = drive.start regs₅ left _ refl b₅ in
      let sector : lba_of regs₅ ≡ lba % 2 ^ 28 =
        ap
          (λ (t : ℕ).
            t % 16 * 2 ^ 24
            + lba / 2 ^ 16 % 2 ^ 8 * 2 ^ 16
            + lba / 2 ^ 8 % 2 ^ 8 * 2 ^ 8
            + lba % 2 ^ 8)
          (top_register (lba / 2 ^ 24))
        ∙ lba_bytes lba in
      (
        n,
        less,
        subst (λ (l : ℕ). drive.Busy l (suc left) n (issue io port lba (suc left) 0x20 s)) sector
            busy,
      )

  -- With a drive that keeps to the protocol and gets each sector ready within the time-out, `read_disk`
  -- ends without an error, has the words of the `count` sectors from the number's low 28 bits on at
  -- the target address, and changes nothing else in memory.
  pub read_disk_ports-IsRead :
      (regs : ℕ → ℕ) (lba count target_address : ℕ) (s : S) (m : ℕ → ℕ)
      → 0 < count
      → drive.Set regs s
      → ((read_disk_ports io port lba count target_address s m).0 ≡ ready)
        × IsRead words
            (lba % 2 ^ 28 * 256)
            (count * 256)
            target_address
            m
            (read_disk_ports io port lba count target_address s m).2
  unfolding read_disk_ports
  read_disk_ports-IsRead regs lba zero target_address s m some_sector idle = absurd (omega arith)
  read_disk_ports-IsRead regs lba (suc left) target_address s m some_sector idle =
      let (n, less, busy) = issue-Busy regs lba left s idle in
      read_sectors-IsRead left (lba % 2 ^ 28) n target_address (issue io port lba (suc left) 0x20 s)
        m less busy
