-- ===== src/Text/Tests.antt =====
-- The theorems on texts, at commands and numbers that the shell meets.
use solstice_os.Base.{◌*◌, ◌%◌, ◌-◌, ◌==◌, suc, if◌then◌else◌, true, false, ap}
use solstice_os.Io.{Ports}
use solstice_os.Text.HexDump.{hex_dump, read_dump, bytes_from, hex_dump-read}
use solstice_os.Text.Serial.{sends, Transmitter, Sending, klog_port, klog_port-Sending}
use solstice_os.Text.Format.{colour, tag}
use solstice_os.Base.{replicate, ℕ, ◌≡◌, ◌≢◌, refl, true, false, List, [], ◌∷◌, ◌++◌, some, arith}
use solstice_os.Text.Strings.{next_arg, string_to_int, peek, parse_decimal}
use solstice_os.Text.Compare.{next_arg_lem}
use solstice_os.Text.Format.{
  number, text, format, print_uint, print_int, collect, convert, codes, klog, warn,
}

next_arg_lem_example :
    (n : ℕ) × (codes "  a b" ≡ replicate n b' ' ++ next_arg (codes "  a b"))
    × (peek (next_arg (codes "  a b")) ≢ b' ')
next_arg_lem_example = next_arg_lem (codes "  a b")

printf_runs :
    format (codes "%s: %d of %x%%") (text (codes "sda") ∷ number 0xffff_fff6 ∷ number 0x1f0 ∷ [])
    ≡ some (codes "sda: -10 of 1f0%")
unfolding format convert print_uint print_int collect
printf_runs = refl

klog_runs :
    klog warn (codes "%u") (number 5 ∷ [])
    ≡ some (
        27 ∷ codes "[90m["
        ++ 27 ∷ codes "[0m"
        ++ 27 ∷ codes "[33m"
        ++ codes " WARN "
        ++ 27 ∷ codes "[0m"
        ++ 27 ∷ codes "[90m]"
        ++ 27 ∷ codes "[0m 5"
        ++ 10 ∷ [])
unfolding klog format convert print_uint collect
klog_runs = refl

decimal_wraps : string_to_int (codes "4294967297") ≡ 1
unfolding string_to_int parse_decimal
decimal_wraps = refl

hex_dump-read_example :
    read_dump (hex_dump (λ a. a * 7 % 256) 20) ≡ bytes_from (λ a. a * 7 % 256) 20 0
hex_dump-read_example = hex_dump-read (λ a. a * 7 % 256) 20 (λ a. omega arith)

-- A transmitter that is busy for one poll after each byte.
abbrev slow_line : Ports (List ℕ × ℕ)
slow_line = record {
  inb = λ p s. ((if s.1 == 0 then 0x20 else 0), (s.0, s.1 - 1));
  inw = λ p s. (0, s);
  outb = λ p v s. (s.0 ++ (v ∷ []), 1);
  outw = λ p v s. s;
}

line_busy :
    (bytes : List ℕ) (n : ℕ) (s : List ℕ × ℕ)
    → s ≡ (bytes, suc n)
    → (sends (slow_line.inb 0x3FD s).0 ≡ true) × ((slow_line.inb 0x3FD s).1 ≡ (bytes, n))
unfolding sends
line_busy bytes n s e =
    let waits : (suc n == 0) ≡ false = ground arith in
    let less : suc n - 1 ≡ n = omega arith in rw (e, waits, less) (refl, refl)

line_free :
    (bytes : List ℕ) (s : List ℕ × ℕ)
    → s ≡ (bytes, 0)
    → (sends (slow_line.inb 0x3FD s).0 ≡ false) × ((slow_line.inb 0x3FD s).1 ≡ (bytes, 0))
unfolding sends
line_free bytes s e = rw e (refl, refl)

abbrev line : Transmitter slow_line 5
line = record {
  Sent = λ bytes n s. s ≡ (bytes, n);
  busy = line_busy;
  free = line_free;
  write = λ bytes c s e. (1, omega arith, ap (slow_line.outb 0x3F8 c) e);
}

abbrev warning : List ℕ
warning =
    (0x1b ∷ codes "[90m[" ++ 0x1b ∷ codes "[0m")
    ++ (colour warn
        ++ (tag warn
            ++ ((0x1b ∷ codes "[0m" ++ 0x1b ∷ codes "[90m]" ++ 0x1b ∷ codes "[0m ")
                ++ (codes "5" ++ 10 ∷ []))))

warning_text : klog warn (codes "%u") (number 5 ∷ []) ≡ some warning
unfolding klog format convert print_uint collect
warning_text = refl

klog_port-Sending_example :
    (s : List ℕ × ℕ) × (klog_port slow_line 5 warn (codes "%u") (number 5 ∷ []) ([], 0)
      ≡ some (some s))
    × Sending slow_line 5 line ([] ++ warning) s
klog_port-Sending_example =
    klog_port-Sending slow_line 5 line warn (codes "%u") (number 5 ∷ []) warning [] ([], 0)
      warning_text (0, omega arith, refl)
