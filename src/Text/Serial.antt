-- ===== src/Text/Serial.antt =====
-- The serial port of src/kernel/utils/utils.cpp and src/kernel/kernel.cpp: `_putchar`, `serial_print`,
-- `serial_hex`, and the text of `klog` down to the port. The wait of `_putchar`, which the source does not
-- bound, has a number of polls as an argument.
use Prim.Native.Nat.{bit_and}
use solstice_os.Base.{
  ℕ, zero, suc, ◌/◌, ◌%◌, ◌^◌, ◌<◌, ◌≡◌, refl, ap, sym, Bool, true, false, if◌then◌else◌, ◌==◌,
  List, [], ◌∷◌, ◌++◌, Option, none, some, get_or, arith,
}
use mathlib.Core.List.{append-nil, append_assoc}
use solstice_os.Base.{subst}
use solstice_os.Io.{Ports}
use solstice_os.Text.Format.{codes, LogLevel, Arg, klog}
use solstice_os.Text.HexDump.{hex_chars}

-- The port set up for 38400 baud and 8 bits.
unfoldable pub init_serial : {S : Type 0} → Ports S → S → S
init_serial io s =
    let s₁ = io.outb 0x3F8 0x03 (io.outb 0x3FB 0x80 (io.outb 0x3F9 0x00 s)) in
    let s₂ = io.outb 0x3FB 0x03 (io.outb 0x3F9 0x00 s₁) in
    io.outb 0x3FC 0x0B (io.outb 0x3FA 0xC7 s₂)

-- The transmitter is busy.
unfoldable pub sends : (status : ℕ) → Bool
sends status = bit_and status 0x20 == 0

module _ {S : Type 0} (io : Ports S) (fuel : ℕ) where
  -- The wait and the write, none where the transmitter is not ready within `left` polls.
  unfoldable pub put_within : (left c : ℕ) → S → Option S
  put_within zero c s = none
  put_within (suc left) c s =
      let (status, s') = io.inb 0x3FD s in
      let rest = put_within left c s' in if sends status then rest else some (io.outb 0x3F8 c s')

  unfoldable pub putchar : (c : ℕ) → S → Option S
  putchar c s = put_within fuel c s

  unfoldable pub serial_print : List ℕ → S → Option S
  serial_print [] s = some s
  serial_print (c ∷ str) s = elim (putchar c s) [ none ↦ none | some s' ↦ serial_print str s' ]

  -- The loop of `serial_hex`, with `left` digits to go.
  unfoldable pub serial_digits : (left v : ℕ) → S → Option S
  serial_digits zero v s = putchar b'\n' s
  serial_digits (suc left) v s = elim (putchar (get_or hex_chars (v / 16 ^ left % 16) 0) s) [
    | none ↦ none
    | some s' ↦ serial_digits left v s'
  ]

  unfoldable pub serial_hex : (v : ℕ) → S → Option S
  serial_hex v s = elim (serial_print (codes "0x") s) [
    | none ↦ none
    | some s' ↦ serial_digits 16 v s'
  ]

  -- `klog` with its text sent; the outer none is a wrong argument.
  unfoldable pub klog_port : LogLevel → List ℕ → List Arg → S → Option (Option S)
  klog_port level fmt args s = elim (klog level fmt args) [
    | none ↦ none
    | some str ↦ some (serial_print str s)
  ]

-- What a transmitter promises. `Sent bytes n` holds when it has taken `bytes`, one behind the other, and is
-- ready for the next after `n` more polls of its status.
pub record Transmitter {S : Type 0} (io : Ports S) (fuel : ℕ) : Type 1 where
  pub Sent : (bytes : List ℕ) (n : ℕ) → S → Type 0
  pub busy :
      (bytes : List ℕ) (n : ℕ) (s : S)
      → Sent bytes (suc n) s
      → (sends (io.inb 0x3FD s).0 ≡ true) × Sent bytes n (io.inb 0x3FD s).1
  pub free :
      (bytes : List ℕ) (s : S)
      → Sent bytes 0 s
      → (sends (io.inb 0x3FD s).0 ≡ false) × Sent bytes 0 (io.inb 0x3FD s).1
  pub write :
      (bytes : List ℕ) (c : ℕ) (s : S)
      → Sent bytes 0 s
      → (n : ℕ) × (n < fuel) × Sent (bytes ++ (c ∷ [])) n (io.outb 0x3F8 c s)

module _ {S : Type 0} (io : Ports S) (fuel : ℕ) (line : Transmitter io fuel) where
  -- The transmitter's state while it may be busy, for less than the polls of `_putchar`.
  abbrev pub Sending : (bytes : List ℕ) → S → Type 0
  Sending bytes s = (n : ℕ) × (n < fuel) × line.Sent bytes n s

  put_within-Sending :
      (left n c : ℕ) (bytes : List ℕ) (s : S)
      → n < left
      → line.Sent bytes n s
      → (s' : S) × (put_within io fuel left c s ≡ some s') × Sending (bytes ++ (c ∷ [])) s'
  unfolding put_within
  put_within-Sending zero n c bytes s less sent = absurd (omega arith)
  put_within-Sending (suc left) zero c bytes s less sent =
      let (ready, sent') = line.free bytes s sent in rw ready (_, refl, line.write bytes c _ sent')
  put_within-Sending (suc left) (suc n) c bytes s less sent =
      let (not_yet, sent') = line.busy bytes n s sent in
      rw not_yet (put_within-Sending left n c bytes _ (omega arith) sent')

  -- With a transmitter that gets ready for each byte within the polls, `serial_print` ends, and the
  -- transmitter has taken the string's characters behind what it had taken before.
  pub serial_print-Sending :
      (str bytes : List ℕ) (s : S)
      → Sending bytes s
      → (s' : S) × (serial_print io fuel str s ≡ some s') × Sending (bytes ++ str) s'
  unfolding serial_print putchar
  serial_print-Sending [] bytes s sending =
      (s, refl, subst (λ b. Sending b s) (sym (append-nil bytes)) sending)
  serial_print-Sending (c ∷ str) bytes s (n, less, sent) =
      let (s₁, e, sending) = put_within-Sending fuel n c bytes s less sent in
      let (s₂, f, sending') = serial_print-Sending str (bytes ++ (c ∷ [])) s₁ sending in
      (
        s₂,
        rw (e, serial_print) f,
        subst (λ b. Sending b s₂) (append_assoc bytes (c ∷ []) str) sending',
      )

  -- `klog`, given arguments that fit its format, ends with a transmitter that gets ready for each byte
  -- within the polls, and the transmitter has then taken all of the line, in order and nothing else.
  pub klog_port-Sending :
      (level : LogLevel) (fmt : List ℕ) (args : List Arg) (str bytes : List ℕ) (s : S)
      → klog level fmt args ≡ some str
      → Sending bytes s
      → (s' : S) × (klog_port io fuel level fmt args s ≡ some (some s')) × Sending (bytes ++ str) s'
  unfolding klog_port
  klog_port-Sending level fmt args str bytes s e sending =
      let (s', f, sending') = serial_print-Sending str bytes s sending in
      (s', rw (e, klog_port) (ap some f), sending')
