-- ===== src/Input/Keyboard/Line.antt =====
-- The shell's buffer as a line of text that is edited at its end.
use solstice_os.Base.{
  ℕ, suc, ◌+◌, ◌-◌, ◌<◌, ◌≤◌, ◌≡◌, ◌≢◌, refl, ap, ◌∙◌, true, false, not, ◌&&◌, if◌then◌else◌, ltb,
  ◌==◌, List, [], ◌∷◌, length, arith, Bool-cases, inl, inr,
}
use solstice_os.Base.Store.{update}
use solstice_os.Input.Keyboard.{Keyboard, Action, idle, rub_out, show, run, c_string, put_char}

-- A line is the list of its characters, the last one first.
abbrev pub Line : Type 0
Line = List ℕ

abbrev pub rev_onto : Line → List ℕ → List ℕ
rev_onto [] rest = rest
rev_onto (c ∷ line) rest = rev_onto line (c ∷ rest)

abbrev pub text_of : Line → List ℕ
text_of line = rev_onto line []

-- What a character does to a line.
abbrev pub edit : ℕ → Line → Action × Line
edit c [] =
    if c == 10
    then (run [], [])
    else if c == 8
    then (idle, [])
    else if not (c == 0)
    then (show c, c ∷ [])
    else (idle, [])
edit c (d ∷ line) =
    if c == 10
    then (run (text_of (d ∷ line)), [])
    else if c == 8
    then (rub_out, line)
    else if not (c == 0) && ltb (length (d ∷ line)) 255
    then (show c, c ∷ d ∷ line)
    else (idle, d ∷ line)

abbrev pub Chars : (ℕ → ℕ) → Line → Type 0
Chars b [] = Unit {0}
Chars b (c ∷ line) = (b (length line) ≡ c) × (c ≢ 0) × Chars b line

-- The buffer holds the line and a terminator behind it, within its 256 bytes.
pub record Holds (k : Keyboard) (line : Line) : Type 0 where
  pub chars : Chars k.shell_buffer line
  pub index : k.buffer_index ≡ length line
  pub short : length line < 256
  pub ended : k.shell_buffer (length line) ≡ 0

Chars-update :
    (b : ℕ → ℕ) (line : Line) (n v : ℕ) → length line ≤ n → Chars b line → Chars (update b n v) line
Chars-update b [] n v le is = tt
Chars-update b (c ∷ line) n v le is =
    (ground (arith, is.0), is.1, Chars-update b line n v (omega arith) is.2)

c_string-Chars :
    (fuel : ℕ) (b : ℕ → ℕ) (line : Line) (rest : List ℕ)
    → Chars b line
    → c_string fuel (length line) b ≡ rest
    → c_string (fuel + length line) 0 b ≡ rev_onto line rest
unfolding c_string
c_string-Chars fuel b [] rest is e = ap (λ n. c_string n 0 b) (omega arith) ∙ e
c_string-Chars fuel b (c ∷ line) rest is e =
    let sum : fuel + length (c ∷ line) ≡ suc fuel + length line = omega arith in
    let live : (b (length line) == 0) ≡ false = ground (arith, is.0, is.1) in
    let step : c_string (suc fuel) (length line) b ≡ c ∷ rest =
      rw (live, is.0) (ap (λ t. c ∷ t) (ap (λ n. c_string fuel n b) (omega arith) ∙ e)) in
    ap (λ n. c_string n 0 b) sum ∙ c_string-Chars (suc fuel) b line (c ∷ rest) is.2 step

whole_text :
    (b : ℕ → ℕ) (line : Line)
    → Chars b line
    → length line < 256
    → b (length line) ≡ 0
    → c_string 256 0 b ≡ text_of line
unfolding c_string
whole_text b line is short ended =
    let sum : 256 ≡ 256 - length line + length line = omega arith in
    let stop : c_string (suc (255 - length line)) (length line) b ≡ [] = rw ended refl in
    let fuel : 256 - length line ≡ suc (255 - length line) = omega arith in
    ap (λ n. c_string n 0 b) sum
    ∙ c_string-Chars (256 - length line) b line [] is
        (ap (λ n. c_string n (length line) b) fuel ∙ stop)

reindexed :
    (k : Keyboard) (line : Line)
    → Holds k line
    → Holds (record k { buffer_index = length line }) line
reindexed k line is = record { chars = is.chars; index = refl; short = is.short; ended = is.ended }

module _ (c : ℕ) (k : Keyboard) where
  abbrev Follows : Line → Type 0
  Follows line = ((put_char c k).0 ≡ (edit c line).0) × Holds (put_char c k).1 (edit c line).1

  run_line : (line : Line) → Holds k line → (c == 10) ≡ true → Follows line
  unfolding put_char
  run_line line is newline =
      let b = update k.shell_buffer (length line) 0 in
      let text : c_string 256 0 b ≡ text_of line =
        whole_text b line (Chars-update k.shell_buffer line (length line) 0 (omega arith) is.chars)
          is.short (ground arith) in
      let empty : Holds (record k { shell_buffer = update b 0 0; buffer_index = 0 }) [] = record {
        chars = tt;
        index = refl;
        short = omega arith;
        ended = ground arith;
      } in
      rw (newline, is.index) (ran line newline text empty)
    where
      ran :
          {k' : Keyboard} {text : List ℕ} (line : Line)
          → (c == 10) ≡ true
          → text ≡ text_of line
          → Holds k' []
          → (run text ≡ (edit c line).0) × Holds k' (edit c line).1
      ran [] newline e h = rw newline (ap run e, h)
      ran (d ∷ line) newline e h = rw newline (ap run e, h)

  rub_line : (line : Line) → Holds k line → (c == 10) ≡ false → (c == 8) ≡ true → Follows line
  unfolding put_char
  rub_line [] is typed rubbed = rw (typed, rubbed, is.index) (refl, reindexed k [] is)
  rub_line (d ∷ line) is typed rubbed =
      let n : k.buffer_index - 1 ≡ length line = omega (arith, is.index) in
      let some_char : ltb 0 k.buffer_index ≡ true = ground (arith, is.index) in
      rw (typed, rubbed, some_char, n)
        (
          refl,
          record {
            chars = Chars-update k.shell_buffer line (length line) 0 (omega arith) is.chars.2;
            index = refl;
            short = omega (arith, is.short);
            ended = ground arith;
          },
        )

  type_line : (line : Line) → Holds k line → (c == 10) ≡ false → (c == 8) ≡ false → Follows line
  unfolding put_char
  type_line line is typed plain = elim (Bool-cases (not (c == 0) && ltb (length line) 255)) [
    | inl shown ↦
        let b = update k.shell_buffer (length line) c in
        let full : Holds
            (record k {
              shell_buffer = update b (length line + 1) 0;
              buffer_index = length line + 1;
            })
            (c ∷ line) =
          record {
            chars = (
              ground arith,
              ground arith,
              Chars-update b line (length line + 1) 0 (omega arith)
                  (Chars-update k.shell_buffer line (length line) c (omega arith) is.chars),
            );
            index = omega arith;
            short = ground arith;
            ended = ground arith;
          } in
        rw (typed, plain, is.index, shown) (added line typed plain shown full)
    | inr kept ↦
        rw (typed, plain, is.index, kept) (stayed line typed plain kept (reindexed k line is))
  ]
    where
      added :
          {k' : Keyboard} (line : Line)
          → (c == 10) ≡ false
          → (c == 8) ≡ false
          → (not (c == 0) && ltb (length line) 255) ≡ true
          → Holds k' (c ∷ line)
          → (show c ≡ (edit c line).0) × Holds k' (edit c line).1
      added [] typed plain shown h =
          let live : (c == 0) ≡ false = ground arith in rw (typed, plain, live) (refl, h)
      added (d ∷ line) typed plain shown h = rw (typed, plain, shown) (refl, h)

      stayed :
          {k' : Keyboard} (line : Line)
          → (c == 10) ≡ false
          → (c == 8) ≡ false
          → (not (c == 0) && ltb (length line) 255) ≡ false
          → Holds k' line
          → (idle ≡ (edit c line).0) × Holds k' (edit c line).1
      stayed [] typed plain kept h =
          let dead : (c == 0) ≡ true = ground arith in rw (typed, plain, dead) (refl, h)
      stayed (d ∷ line) typed plain kept h = rw (typed, plain, kept) (refl, h)

-- The keyboard handler implements the editing of a line, for every character: the buffer keeps the
-- line and its terminator, at most 255 characters, and a newline runs the text of the line.
pub put_char-edit :
    (c : ℕ) (k : Keyboard) (line : Line)
    → Holds k line
    → ((put_char c k).0 ≡ (edit c line).0) × Holds (put_char c k).1 (edit c line).1
put_char-edit c k line is = elim (Bool-cases (c == 10)) [
  | inl newline ↦ run_line c k line is newline
  | inr typed ↦ elim (Bool-cases (c == 8)) [
    | inl rubbed ↦ rub_line c k line is typed rubbed
    | inr plain ↦ type_line c k line is typed plain
  ]
]
