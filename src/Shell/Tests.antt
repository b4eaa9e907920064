-- ===== src/Shell/Tests.antt =====
-- An instance of the theorem on the shell, and a run.
use solstice_os.Base.{◌≡◌, refl, false, arith}
use solstice_os.Text.Strings.{strlen, strcmp, starts_with, next_arg}
use solstice_os.Text.Format.{codes}
use solstice_os.Shell.{missing_operand, list, change_dir, make_dir, remove, touch, execute_command}
use solstice_os.Shell.Arguments.{execute_command-operand}

execute_command-operand_example :
    let run = execute_command false false false in
    (run (codes "mkdir  a/b") ≡ make_dir (codes "a/b"))
    × (run (codes "rm  a/b") ≡ remove (codes "a/b"))
    × (run (codes "touch  a/b") ≡ touch (codes "a/b"))
    × (run (codes "ls  a/b") ≡ list (codes "a/b"))
    × (run (codes "cd  a/b") ≡ change_dir (codes "a/b"))
    × (run (codes "mkdir  ") ≡ missing_operand)
    × (run (codes "rm  ") ≡ missing_operand)
    × (run (codes "touch  ") ≡ missing_operand)
    × (run (codes "cd  ") ≡ change_dir (codes "/"))
execute_command-operand_example =
    execute_command-operand false false false 1 (codes "a/b") (omega arith, omega arith)

-- There is no `rmdir`: the text is taken for `rm` with another operand.
rmdir_is_rm : execute_command false false false (codes "rmdir a") ≡ remove (codes "dir a")
unfolding execute_command strcmp starts_with next_arg strlen
rmdir_is_rm = refl
