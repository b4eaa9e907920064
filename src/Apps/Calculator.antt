-- ===== src/Apps/Calculator.antt =====
-- The calculator of src/kernel/applications/calculator.cpp. A result that does not fit its
-- `int32_t` wraps around, as in the registers of the processor: C++ leaves it undefined, and where the
-- least number is divided by -1 the processor traps.
pub mod Chain
pub mod Display
pub mod Grid
pub mod Window
pub mod Shown
use solstice_os.Base.{
  ℕ, zero, suc, ◌+◌, ◌-◌, ◌*◌, ◌/◌, ◌%◌, ◌^◌, Bool, true, false, not, ◌||◌, ◌&&◌, if◌then◌else◌,
  ltb, leb, ◌==◌, List, [], ◌∷◌, ◌++◌, length, set,
}
use solstice_os.Base.Int.{ℤ, pos, negsuc, pos_part, neg_part, sub_ℕ, ◌+ℤ◌, ◌-ℤ◌, ◌*ℤ◌, ltb_ℤ, int32}

-- The globals. `expr` is the text in `expr_buf`, and `expr_len` its length; `pending_op` is 0 for none.
pub record Calc : Type 0 where
  pub display_value : ℤ
  pub pending_value : ℤ
  pub pending_op : ℕ
  pub start_new_number : Bool
  pub expr : List ℕ
  pub just_evaluated : Bool

abbrev pub initial : Calc
initial = record {
  display_value = pos 0;
  pending_value = pos 0;
  pending_op = 0;
  start_new_number = true;
  expr = b'0' ∷ [];
  just_evaluated = false;
}

-- `sizeof(expr_buf) - 1`.
abbrev pub expr_room : ℕ
expr_room = 31

unfoldable pub expr_append : ℕ → List ℕ → List ℕ
expr_append c expr = if ltb (length expr) expr_room then expr ++ c ∷ [] else expr

-- The quotient of C++, which goes towards 0.
abbrev pub quot : ℤ → ℤ → ℤ
quot (pos a) (pos b) = pos (a / b)
quot (pos a) (negsuc b) = sub_ℕ 0 (a / suc b)
quot (negsuc a) (pos b) = sub_ℕ 0 (suc a / b)
quot (negsuc a) (negsuc b) = pos (suc a / suc b)

abbrev pub is_zero : ℤ → Bool
is_zero a = pos_part a + neg_part a == 0

unfoldable pub apply_op : (a b : ℤ) → (op : ℕ) → ℤ
apply_op a b op =
    if op == b'+'
    then int32 (a +ℤ b)
    else if op == b'-'
    then int32 (a -ℤ b)
    else if op == b'*'
    then int32 (a *ℤ b)
    else if op == b'/'
    then if is_zero b then a else int32 (quot a b)
    else b

-- The loop that takes the digits off, the lowest first; `out` is what is printed of them later.
unfoldable pub dec_digits : (room uval : ℕ) → List ℕ → List ℕ
dec_digits zero uval out = out
dec_digits (suc room) uval out =
    let rest = dec_digits room (uval / 10) ((b'0' + uval % 10) ∷ out) in
    if uval == 0 then out else rest

-- The text of a number. `tmp` has 12 bytes.
unfoldable pub itoa_dec : ℤ → List ℕ
itoa_dec val =
    let uval = (pos_part val + neg_part val) % 2 ^ 32 in
    let digits = if uval == 0 then b'0' ∷ [] else dec_digits 12 uval [] in
    if ltb_ℤ val (pos 0) then b'-' ∷ digits else digits

abbrev pub is_digit : ℕ → Bool
is_digit label = leb b'0' label && leb label b'9'

-- The pending operation carried out, if there is one.
unfoldable pub settle : Calc → ℤ
settle c =
    if c.pending_op == 0
    then c.display_value
    else apply_op c.pending_value c.display_value c.pending_op

-- The text with its last character replaced.
unfoldable pub swap_last : ℕ → List ℕ → List ℕ
swap_last label expr = if ltb 0 (length expr) then set expr (length expr - 1) label else expr

unfoldable pub on_button : (label : ℕ) → Calc → Calc
on_button label c =
    let shown = if c.just_evaluated then [] else c.expr in
    let d = pos (label - b'0') in
    let doubled = not (c.pending_op == 0) && c.start_new_number in
    let operand = if doubled then c.display_value else settle c in
    if is_digit label
    then record c {
      just_evaluated = false;
      display_value =
          if c.start_new_number then d else int32 (int32 (c.display_value *ℤ pos 10) +ℤ d);
      start_new_number = false;
      expr = expr_append label shown;
    }
    else if label == b'C'
    then initial
    else if label == b'='
    then record c {
      display_value = settle c;
      pending_op = 0;
      start_new_number = true;
      expr = itoa_dec (settle c);
      just_evaluated = true;
    }
    else record c {
      just_evaluated = false;
      display_value = operand;
      expr = if doubled then swap_last label c.expr else expr_append label c.expr;
      pending_value = operand;
      pending_op = label;
      start_new_number = true;
    }
