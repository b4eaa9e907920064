-- ===== src/Shell/Arguments.antt =====
-- How the commands on files get their operand.
use solstice_os.Base.{
  ap, ℕ, zero, suc, ◌≡◌, ◌≢◌, refl, Bool, if◌then◌else◌, ◌==◌, List, [], ◌∷◌, ◌++◌, replicate,
  arith,
}
use solstice_os.Text.Strings.{peek, strcmp, strlen, starts_with, next_arg}
use solstice_os.Text.Format.{codes}
use solstice_os.Shell.{
  missing_operand, Request, list, change_dir, make_dir, remove, touch, with_operand,
  execute_command,
}

next_arg-replicate :
    (n : ℕ) (arg : List ℕ) → peek arg ≢ b' ' → next_arg (replicate n b' ' ++ arg) ≡ arg
unfolding next_arg
next_arg-replicate zero [] other = refl
next_arg-replicate zero (c ∷ arg) other = ground arith
next_arg-replicate (suc n) arg other = next_arg-replicate n arg other

-- A text that is an operand: it has a character, and the first one is no space and no terminator.
abbrev pub IsOperand : List ℕ → Type 0
IsOperand arg = (peek arg ≢ 0) × (peek arg ≢ b' ')

some_operand :
    (call : List ℕ → Request) (arg : List ℕ) → peek arg ≢ 0 → with_operand call arg ≡ call arg
unfolding strlen
some_operand call [] some_char = absurd (omega (arith, some_char))
some_operand call (c ∷ arg) some_char = ground arith

root_or : (arg : List ℕ) → peek arg ≢ 0 → (if strlen arg == 0 then b'/' ∷ [] else arg) ≡ arg
unfolding strlen
root_or [] some_char = absurd (omega (arith, some_char))
root_or (c ∷ arg) some_char = ground arith

-- Behind a command's name and at least one space, `execute_command` takes the text from its first
-- character that is no space for the operand of `mkdir`, `rm`, `touch`, `ls` and `cd`. With nothing but
-- spaces there, `mkdir`, `rm` and `touch` report that the operand is missing, and `cd` goes to the root.
pub execute_command-operand :
    (wm_running calc_window xeyes_window : Bool) (n : ℕ) (arg : List ℕ)
    → IsOperand arg
    → let run = execute_command wm_running calc_window xeyes_window in
      let spaces : List ℕ = replicate (suc n) b' ' in
      (run (codes "mkdir" ++ (spaces ++ arg)) ≡ make_dir arg)
      × (run (codes "rm" ++ (spaces ++ arg)) ≡ remove arg)
      × (run (codes "touch" ++ (spaces ++ arg)) ≡ touch arg)
      × (run (codes "ls" ++ (spaces ++ arg)) ≡ list arg)
      × (run (codes "cd" ++ (spaces ++ arg)) ≡ change_dir arg)
      × (run (codes "mkdir" ++ (spaces ++ [])) ≡ missing_operand)
      × (run (codes "rm" ++ (spaces ++ [])) ≡ missing_operand)
      × (run (codes "touch" ++ (spaces ++ [])) ≡ missing_operand)
      × (run (codes "cd" ++ (spaces ++ [])) ≡ change_dir (b'/' ∷ []))
unfolding execute_command starts_with strcmp strlen
execute_command-operand wm_running calc_window xeyes_window n arg operand =
    let e = next_arg-replicate (suc n) arg operand.1 in
    let none_there = next_arg-replicate (suc n) [] (omega arith) in
    (
      rw e (some_operand make_dir arg operand.0),
      rw e (some_operand remove arg operand.0),
      rw e (some_operand touch arg operand.0),
      rw e refl,
      rw e (ap change_dir (root_or arg operand.0)),
      rw none_there refl,
      rw none_there refl,
      rw none_there refl,
      rw none_there refl,
    )
