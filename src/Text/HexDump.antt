-- ===== src/Text/HexDump.antt =====
-- `print_hex_8bit` and `hex_dump` of src/kernel/utils/utils.cpp, as the strings that are printed one after the
-- other.
use solstice_os.Base.{
  false, ℕ, zero, suc, true, min, ◌+◌, ◌-◌, ◌*◌, ◌/◌, ◌%◌, ◌^◌, ◌<◌, ◌≤◌, ◌≡◌, refl, ap, ◌∙◌, ◌&&◌,
  if◌then◌else◌, ltb, leb, ◌==◌, List, [], ◌∷◌, ◌++◌, length, get_or, drop, arith, Bool-cases, inl,
  inr,
}
use mathlib.Core.List.{append-nil}
use solstice_os.Text.Format.{codes}
use solstice_os.Text.Strings.{hex_digit, parse_hex}

abbrev pub hex_chars : List ℕ
hex_chars = codes "0123456789ABCDEF"

unfoldable pub print_hex_8bit : (n : ℕ) → List ℕ
print_hex_8bit n = get_or hex_chars (n / 16 % 16) 0 ∷ get_or hex_chars (n % 16) 0 ∷ []

-- The loop over the numbers of a row, with `left` to go from the byte `at` on; `len` bytes are dumped.
unfoldable pub dump_bytes : (p : ℕ → ℕ) (len left at : ℕ) → List (List ℕ)
dump_bytes p len zero at = []
dump_bytes p len (suc left) at =
    let rest = dump_bytes p len left (at + 1) in
    if ltb at len then print_hex_8bit (p at) ∷ codes " " ∷ rest else codes "   " ∷ rest

-- The loop over the characters of a row.
unfoldable pub dump_chars : (p : ℕ → ℕ) (len left at : ℕ) → List (List ℕ)
dump_chars p len zero at = []
dump_chars p len (suc left) at =
    let rest = dump_chars p len left (at + 1) in
    let c = p at in
    if ltb at len then (if leb 32 c && leb c 126 then c ∷ [] else codes ".") ∷ rest else rest

unfoldable pub dump_row : (p : ℕ → ℕ) (len at : ℕ) → List (List ℕ)
dump_row p len at =
    print_hex_8bit (at / 2 ^ 8 % 2 ^ 8)
    ∷ print_hex_8bit (at % 2 ^ 8)
    ∷ codes ": "
    ∷ (dump_bytes p len 16 at ++ (codes " | " ∷ (dump_chars p len 16 at ++ (codes "\n" ∷ []))))

-- The loop over the rows.
unfoldable pub dump_rows : (p : ℕ → ℕ) (len left at : ℕ) → List (List (List ℕ))
dump_rows p len zero at = []
dump_rows p len (suc left) at = dump_row p len at ∷ dump_rows p len left (at + 16)

-- The rows of a dump; a row starts at each multiple of 16 below `len`.
unfoldable pub hex_dump : (p : ℕ → ℕ) (len : ℕ) → List (List (List ℕ))
hex_dump p len = dump_rows p len ((len + 15) / 16) 0

-- Reading a dump: of the strings behind the offset those of two characters, as numbers.
abbrev pub read_strings : List (List ℕ) → List ℕ
read_strings [] = []
read_strings (s ∷ ss) = if length s == 2 then parse_hex s 0 ∷ read_strings ss else read_strings ss

abbrev pub read_dump : List (List (List ℕ)) → List ℕ
read_dump [] = []
read_dump (row ∷ rows) = read_strings (drop 3 row) ++ read_dump rows

abbrev pub bytes_from : (p : ℕ → ℕ) (left at : ℕ) → List ℕ
bytes_from p zero at = []
bytes_from p (suc left) at = p at ∷ bytes_from p left (at + 1)

-- Equal heads and equal tails.
ap2 : {a b : ℕ} {xs ys : List ℕ} → a ≡ b → xs ≡ ys → (a ∷ xs) ≡ (b ∷ ys)
ap2 {b = b} {xs = xs} e f = ap (λ t. t ∷ xs) e ∙ ap (λ t. b ∷ t) f

hex_char-digit : (n : ℕ) → n < 16 → hex_digit (get_or hex_chars n 0) ≡ n
unfolding hex_digit
hex_char-digit n small = ground arith

hex_char-space : (n : ℕ) → n < 16 → (get_or hex_chars n 0 == b' ') ≡ false
hex_char-space n small = ground arith

print_hex_8bit-parse : (n : ℕ) → n < 256 → parse_hex (print_hex_8bit n) 0 ≡ n
unfolding print_hex_8bit parse_hex
print_hex_8bit-parse n small =
    let high : n / 16 % 16 < 16 = omega arith in
    let low : n % 16 < 16 = omega arith in
    let high' : ltb (n / 16 % 16) 16 ≡ true = ground arith in
    let low' : ltb (n % 16) 16 ≡ true = ground arith in
    rw
      (
        hex_char-space (n / 16 % 16) high,
        hex_char-space (n % 16) low,
        hex_char-digit (n / 16 % 16) high,
        hex_char-digit (n % 16) low,
        high',
        low',
      )
      (omega arith)

module _ (p : ℕ → ℕ) (len : ℕ) (byte : (a : ℕ) → p a < 256) where
  dump_bytes-read :
      (left at : ℕ) (ss : List (List ℕ))
      → read_strings (dump_bytes p len left at ++ ss)
        ≡ bytes_from p (min left (len - at)) at ++ read_strings ss
  unfolding dump_bytes print_hex_8bit
  dump_bytes-read zero at ss = let n : min 0 (len - at) ≡ 0 = omega arith in rw n refl
  dump_bytes-read (suc left) at ss =
      let ih = dump_bytes-read left (at + 1) ss in
      elim (Bool-cases (ltb at len)) [
        | inl more ↦
            let n : min (suc left) (len - at) ≡ suc (min left (len - (at + 1))) = ground arith in
            rw (more, n) (ap2 (print_hex_8bit-parse (p at) (byte at)) ih)
        | inr done ↦
            let n : min (suc left) (len - at) ≡ 0 = ground arith in
            let n' : min left (len - (at + 1)) ≡ 0 = ground arith in rw (done, n) (ih ∙ rw n' refl)
      ]

  dump_chars-read :
      (left at : ℕ) (ss : List (List ℕ))
      → read_strings (dump_chars p len left at ++ ss) ≡ read_strings ss
  unfolding dump_chars
  dump_chars-read zero at ss = refl
  dump_chars-read (suc left) at ss =
      let ih = dump_chars-read left (at + 1) ss in
      elim (Bool-cases (ltb at len)) [
        | inl more ↦ elim (Bool-cases (leb 32 (p at) && leb (p at) 126)) [
          | inl shown ↦ rw (more, shown) ih
          | inr dot ↦ rw (more, dot) ih
        ]
        | inr done ↦ rw done ih
      ]

  bytes_from-append :
      (m n at : ℕ) → bytes_from p m at ++ bytes_from p n (at + m) ≡ bytes_from p (m + n) at
  bytes_from-append zero n at =
      let here : at + 0 ≡ at = omega arith in
      let all : n ≡ 0 + n = omega arith in
      ap (bytes_from p n) here ∙ ap (λ k. bytes_from p k at) all
  bytes_from-append (suc m) n at =
      let next : at + suc m ≡ at + 1 + m = omega arith in
      let all : suc (m + n) ≡ suc m + n = omega arith in
      ap (λ t. p at ∷ t)
        (ap (λ k. bytes_from p m (at + 1) ++ bytes_from p n k) next
          ∙ bytes_from-append m n (at + 1))
      ∙ ap (λ k. bytes_from p k at) all

  dump_rows-read :
      (left at : ℕ)
      → len ≤ at + 16 * left
      → read_dump (dump_rows p len left at) ≡ bytes_from p (len - at) at
  unfolding dump_rows dump_row
  dump_rows-read zero at past = let none : len - at ≡ 0 = omega (arith, past) in rw none refl
  dump_rows-read (suc left) at past =
      let behind = codes " | " ∷ (dump_chars p len 16 at ++ (codes "\n" ∷ [])) in
      let k = min 16 (len - at) in
      let row : read_strings (dump_bytes p len 16 at ++ behind) ≡ bytes_from p k at =
        dump_bytes-read 16 at behind
        ∙ ap (λ t. bytes_from p k at ++ t) (dump_chars-read 16 at (codes "\n" ∷ []))
        ∙ append-nil (bytes_from p k at) in
      let rest = dump_rows-read left (at + 16) (omega (arith, past)) in
      ap (λ t. t ++ read_dump (dump_rows p len left (at + 16))) row
      ∙ ap (λ t. bytes_from p k at ++ t) rest
      ∙ elim (Bool-cases (ltb (len - at) 16)) [
        | inl short ↦
            let all : k ≡ len - at = ground arith in
            let none : len - (at + 16) ≡ 0 = ground arith in
            rw (all, none) (append-nil (bytes_from p (len - at) at))
        | inr full ↦
            let all : k ≡ 16 = ground arith in
            let sum : 16 + (len - (at + 16)) ≡ len - at = ground arith in
            rw all (bytes_from-append 16 (len - (at + 16)) at ∙ ap (λ n. bytes_from p n at) sum)
      ]

  -- The two-digit numbers of a dump behind the offsets are the bytes that it was made of, in their order,
  -- none left out and none added, whatever its last row holds.
  pub hex_dump-read : read_dump (hex_dump p len) ≡ bytes_from p len 0
  unfolding hex_dump
  hex_dump-read =
      let all : len - 0 ≡ len = omega arith in
      dump_rows-read ((len + 15) / 16) 0 (omega arith) ∙ ap (λ n. bytes_from p n 0) all
