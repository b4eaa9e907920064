-- ===== src/Text/Strings.antt =====
-- The string functions of src/kernel/utils/utils.cpp.
use solstice_os.Base.{
  ℕ, ◌+◌, ◌-◌, ◌*◌, ◌%◌, ◌^◌, ◌≢◌, Bool, true, false, not, ◌&&◌, ◌||◌, List, [], ◌∷◌, if◌then◌else◌,
  ltb, leb, ◌==◌,
}

-- `*s`, which is the terminator at the end.
abbrev pub peek : List ℕ → ℕ
peek [] = 0
peek (c ∷ s) = c

abbrev pub tail : List ℕ → List ℕ
tail [] = []
tail (c ∷ s) = s

-- No character of a C string is NUL.
abbrev pub IsText : List ℕ → Type 0
IsText [] = Unit {0}
IsText (c ∷ s) = (c ≢ 0) × IsText s

-- `strcmp` returns true on equal strings.
unfoldable pub strcmp : List ℕ → List ℕ → Bool
strcmp [] s₂ = 0 == peek s₂
strcmp (a ∷ s₁) s₂ = if not (a == 0) && a == peek s₂ then strcmp s₁ (tail s₂) else a == peek s₂

unfoldable pub strlen : List ℕ → ℕ
strlen [] = 0
strlen (c ∷ s) = strlen s + 1

unfoldable pub starts_with : List ℕ → List ℕ → Bool
starts_with str [] = true
starts_with str (p ∷ prefix) =
    if peek str == 0 || not (peek str == p) then false else starts_with (tail str) prefix

-- The loop of `is_number`, behind its test for the empty string.
unfoldable pub all_digits : List ℕ → Bool
all_digits [] = true
all_digits (c ∷ s) = if ltb c b'0' || ltb b'9' c then false else all_digits s

unfoldable pub is_number : List ℕ → Bool
unfolding all_digits
is_number s = if peek s == 0 then false else all_digits s

unfoldable pub next_arg : List ℕ → List ℕ
next_arg [] = []
next_arg (c ∷ s) = if c == b' ' then next_arg s else c ∷ s

-- What a character adds in base 16, or 16 for a character that ends the loop.
unfoldable pub hex_digit : ℕ → ℕ
hex_digit c =
    if leb b'0' c && leb c b'9'
    then c - b'0'
    else if leb b'a' c && leb c b'f'
    then c - b'a' + 10
    else if leb b'A' c && leb c b'F'
    then c - b'A' + 10
    else 16

-- The loop of `string_to_int`, in base 10 and in base 16. `ret` is a `uint32_t`.
unfoldable pub parse_decimal : List ℕ → ℕ → ℕ
parse_decimal [] ret = ret
parse_decimal (c ∷ s) ret =
    let rest = parse_decimal s ((ret * 10 + (c - b'0')) % 2 ^ 32) in
    if c == b' ' then ret else if leb b'0' c && leb c b'9' then rest else ret

unfoldable pub parse_hex : List ℕ → ℕ → ℕ
unfolding hex_digit
parse_hex [] ret = ret
parse_hex (c ∷ s) ret =
    let rest = parse_hex s ((ret * 16 + hex_digit c) % 2 ^ 32) in
    if c == b' ' then ret else if ltb (hex_digit c) 16 then rest else ret

unfoldable pub string_to_int : List ℕ → ℕ
unfolding parse_decimal parse_hex
string_to_int str =
    if peek str == b'0' && (peek (tail str) == b'x' || peek (tail str) == b'X')
    then parse_hex (tail (tail str)) 0
    else parse_decimal str 0

-- A buffer is a function from offsets to bytes. `strcpy` writes the string and a NUL.
unfoldable pub strcpy : (ℕ → ℕ) → ℕ → List ℕ → ℕ → ℕ
strcpy dest at [] = λ i. if i == at then 0 else dest i
strcpy dest at (c ∷ src) = strcpy (λ i. if i == at then c else dest i) (at + 1) src
