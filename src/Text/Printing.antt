-- ===== src/Text/Printing.antt =====
-- What `printf` prints.
use mathlib.Core.List.{append-nil}
use solstice_os.Base.{ℕ, ◌%◌, ◌^◌, ◌<◌, ◌≡◌, ◌≢◌, refl, List, [], ◌∷◌, ◌++◌, some, arith}
use solstice_os.Text.Format.{Arg, number, format, convert, codes}
use solstice_os.Text.Numbers.{string_to_int-print_uint}
use solstice_os.Text.Strings.{string_to_int}

-- No character of the text is `%`.
abbrev pub IsPlain : List ℕ → Type 0
IsPlain [] = Unit {0}
IsPlain (c ∷ s) = (c ≢ b'%') × IsPlain s

-- A format's plain beginning is printed as it is, before what the rest of the format prints.
pub format-append :
    (s fmt : List ℕ) (args : List Arg) (out : List ℕ)
    → IsPlain s
    → format fmt args ≡ some out
    → format (s ++ fmt) args ≡ some (s ++ out)
unfolding format
format-append [] fmt args out p e = e
format-append (c ∷ []) [] args out p e = ground arith
format-append (c ∷ []) (d ∷ fmt) args out p e = ground arith
format-append (c ∷ d ∷ s) fmt args out p e =
    ground (arith, format-append (d ∷ s) fmt args out p.1 e)

-- A `%u` between plain text prints a number that `string_to_int` reads back.
pub format_number :
    (before after : List ℕ) (n : ℕ)
    → IsPlain before
    → IsPlain after
    → n < 2 ^ 32
    → (s : List ℕ) × (format (before ++ (codes "%u" ++ after)) (number n ∷ [])
        ≡ some (before ++ (s ++ after)))
      × (string_to_int s ≡ n)
unfolding convert
format_number before after n p q w =
    let (s, e, numeric, back) = string_to_int-print_uint n w in
    let tail_out : format after [] ≡ some after =
      rw (append-nil after) at (format-append after [] [] [] q (unfold format in refl)) in
    let wide : n % 2 ^ 32 ≡ n = omega arith in
    let here : format (b'%' ∷ b'u' ∷ after) (number n ∷ []) ≡ some (s ++ after) =
      unfold format in rw (wide, e, tail_out) refl in
    (s, format-append before _ _ _ p here, back)
