-- ===== src/Text/Format.antt =====
-- The formatter of src/kernel/misc/printf.cpp and of `klog` in src/kernel/utils/utils.cpp: what is
-- printed is a list of characters.
use solstice_os.Base.{
  ℕ, zero, suc, ◌+◌, ◌-◌, ◌/◌, ◌%◌, ◌^◌, Bool, true, false, not, ◌||◌, List, [], ◌∷◌, ◌++◌,
  if◌then◌else◌, leb, ◌==◌, Option, none, some, get_or,
}
use mathlib.Core.List.{reverse}
use Prim.Native.String.{String}
use Prim.Native.Char.{code}

-- The code points of a text: its bytes, since the source's texts are ASCII.
abbrev pub codes : String → List ℕ
codes String.[] = []
codes (String.◌∷◌ c s) = code c ∷ codes s

abbrev pub lower_digits : List ℕ
lower_digits = codes "0123456789abcdef"

abbrev pub upper_digits : List ℕ
upper_digits = codes "0123456789ABCDEF"

abbrev pub digit_char : Bool → ℕ → ℕ
digit_char upper d = get_or (if upper then upper_digits else lower_digits) d 0

-- The `while (val > 0)` loop: the digits in the order in which they enter `buf`, the lowest first.
-- `room` is what is left of the 64 bytes of `buf`; `none` is a write behind its end.
unfoldable pub collect : (room base : ℕ) (upper : Bool) (val : ℕ) → Option (List ℕ)
collect zero base upper val = if val == 0 then some [] else none
collect (suc room) base upper val =
    let rest = collect room base upper (val / base) in
    if val == 0
    then some []
    else elim rest [ none ↦ none | some ds ↦ some (digit_char upper (val % base) ∷ ds) ]

-- `print_uint`: the digits are printed from the end of the buffer.
unfoldable pub print_uint : (val base : ℕ) → Bool → Option (List ℕ)
print_uint val base upper =
    if val == 0
    then some (b'0' ∷ [])
    else elim (collect 64 base upper val) [ none ↦ none | some ds ↦ some (reverse ds) ]

-- `print_int` of an `int64_t`, given as its 64-bit pattern: the sign, and the pattern of the
-- negated value.
unfoldable pub print_int : ℕ → Option (List ℕ)
print_int val =
    if leb (2 ^ 63) val
    then elim (print_uint (2 ^ 64 - val) 10 false) [ none ↦ none | some ds ↦ some (b'-' ∷ ds) ]
    else print_uint val 10 false

unfoldable pub print_ptr : ℕ → Option (List ℕ)
print_ptr val = elim (print_uint val 16 false) [ none ↦ none | some ds ↦ some (codes "0x" ++ ds) ]

-- A variable argument: a number, as the 64-bit pattern of the promoted value, or a string.
pub data Arg : Type 0 where
  number : ℕ → Arg
  text : List ℕ → Arg

-- An `int` argument, sign-extended to 64 bits.
abbrev pub extend : ℕ → ℕ
extend n = if leb (2 ^ 31) (n % 2 ^ 32) then n % 2 ^ 32 + (2 ^ 64 - 2 ^ 32) else n % 2 ^ 32

-- What one conversion prints, given its argument. `none` where the argument's type is wrong, which
-- C++ leaves undefined.
unfoldable pub convert : (spec : ℕ) → Arg → Option (List ℕ)
convert spec (number n) =
    if spec == b'c'
    then some (n % 2 ^ 8 ∷ [])
    else if spec == b'd' || spec == b'i'
    then print_int (extend n)
    else if spec == b'u'
    then print_uint (n % 2 ^ 32) 10 false
    else if spec == b'x'
    then print_uint (n % 2 ^ 32) 16 false
    else if spec == b'X'
    then print_uint (n % 2 ^ 32) 16 true
    else if spec == b'p'
    then print_ptr n
    else none
convert spec (text s) = if spec == b's' then some s else none

-- The conversions that take an argument.
abbrev pub takes_arg : ℕ → Bool
takes_arg c =
    c == b'c'
    || c == b'd'
    || c == b'i'
    || c == b'u'
    || c == b'x'
    || c == b'X'
    || c == b'p'
    || c == b's'

abbrev pub prepend : List ℕ → Option (List ℕ) → Option (List ℕ)
prepend s none = none
prepend s (some t) = some (s ++ t)

abbrev pub head? : List Arg → Option Arg
head? [] = none
head? (a ∷ as') = some a

abbrev pub rest : List Arg → List Arg
rest [] = []
rest (a ∷ as') = as'

-- `printf`, `kprintf` and the loop of `klog`: what is printed for a format and its arguments; `none`
-- where an argument is missing or of the wrong type.
unfoldable pub format : List ℕ → List Arg → Option (List ℕ)
format [] args = some []
format (c ∷ []) args = if c == b'%' then some [] else some (c ∷ [])
format (c ∷ d ∷ fmt) args =
    let plain = prepend (c ∷ []) (format (d ∷ fmt) args) in
    let percent = prepend (b'%' ∷ []) (format fmt args) in
    let other = prepend (b'%' ∷ d ∷ []) (format fmt args) in
    let behind = format fmt (rest args) in
    if not (c == b'%')
    then plain
    else if d == b'%'
    then percent
    else if takes_arg d
    then elim (head? args) [
      | none ↦ none
      | some a ↦ elim (convert d a) [ none ↦ none | some s ↦ prepend s behind ]
    ]
    else other

pub data LogLevel : Type 0 where
  info good warn failed : LogLevel

abbrev pub colour : LogLevel → List ℕ
colour info = 0x1b ∷ codes "[36m"
colour good = 0x1b ∷ codes "[32m"
colour warn = 0x1b ∷ codes "[33m"
colour failed = 0x1b ∷ codes "[31m"

abbrev pub tag : LogLevel → List ℕ
tag info = codes " INFO "
tag good = codes "  OK  "
tag warn = codes " WARN "
tag failed = codes " FAIL "

-- `klog`: a coloured tag, the formatted message and a line feed.
unfoldable pub klog : LogLevel → List ℕ → List Arg → Option (List ℕ)
klog level fmt args = prepend (0x1b ∷ codes "[90m[" ++ 0x1b ∷ codes "[0m") (
    prepend (colour level) (
      prepend (tag level) (
        prepend (0x1b ∷ codes "[0m" ++ 0x1b ∷ codes "[90m]" ++ 0x1b ∷ codes "[0m ")
          (elim (format fmt args) [ none ↦ none | some s ↦ some (s ++ 10 ∷ []) ]))))
