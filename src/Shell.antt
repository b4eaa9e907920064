-- ===== src/Shell.antt =====
-- The shell of src/kernel/utils/utils.cpp: what `execute_command` calls for a line of text. What the
-- called parts do is modelled with them. A bare `echo` and a bare `readdisk`, with which the source
-- reads behind the terminator, have an empty argument.
pub mod Arguments
mod Tests
use solstice_os.Base.{
  ℕ, Bool, true, false, not, ◌&&◌, ◌||◌, if◌then◌else◌, ◌==◌, List, [], ◌∷◌, drop,
}
use solstice_os.Text.Strings.{peek, strcmp, strlen, starts_with, is_number, next_arg, string_to_int}
use solstice_os.Text.Format.{codes}

-- The calls, each with its argument, and the messages.
pub data Request : Type 0 where
  help clear : Request
  echo : List ℕ → Request
  read_sector : (lba : ℕ) → (arg : List ℕ) → Request
  invalid_lba : Request
  list change_dir make_dir remove touch : List ℕ → Request
  wait : ℕ → Request
  invalid_time missing_operand no_window_manager already_open : Request
  open_calculator open_xeyes start_wm : Request
  unknown : List ℕ → Request

-- `command[2] == ' ' || command[2] == '\0'`.
abbrev pub ends_at_2 : List ℕ → Bool
ends_at_2 command = peek (drop 2 command) == b' ' || peek (drop 2 command) == 0

-- The source tests an operand by its length.
abbrev pub with_operand : (List ℕ → Request) → List ℕ → Request
with_operand call arg = if strlen arg == 0 then missing_operand else call arg

unfoldable pub execute_command : (wm_running calc_window xeyes_window : Bool) → List ℕ → Request
execute_command wm_running calc_window xeyes_window command =
    let sector = drop 9 command in
    let dir_name = next_arg (drop 2 command) in
    let time = next_arg (drop 5 command) in
    if strcmp command (codes "help")
    then help
    else if strcmp command (codes "clear")
    then clear
    else if starts_with command (codes "echo")
    then echo (drop 5 command)
    else if starts_with command (codes "readdisk")
    then if is_number sector then read_sector (string_to_int sector) sector else invalid_lba
    else if starts_with command (codes "ls") && ends_at_2 command
    then list (next_arg (drop 2 command))
    else if starts_with command (codes "cd") && ends_at_2 command
    then change_dir (if strlen dir_name == 0 then b'/' ∷ [] else dir_name)
    else if starts_with command (codes "sleep")
    then if not (is_number time) then invalid_time else wait (string_to_int time)
    else if starts_with command (codes "mkdir")
    then with_operand make_dir (next_arg (drop 5 command))
    else if starts_with command (codes "rm")
    then with_operand remove (next_arg (drop 2 command))
    else if starts_with command (codes "touch")
    then with_operand touch (next_arg (drop 5 command))
    else if strcmp command (codes "calculator")
    then if not wm_running
      then no_window_manager
      else if calc_window
      then already_open
      else open_calculator
    else if strcmp command (codes "xeyes")
    then if not wm_running
      then no_window_manager
      else if xeyes_window
      then already_open
      else open_xeyes
    else if strcmp command (codes "startwm")
    then start_wm
    else unknown command
