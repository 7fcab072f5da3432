-- ===== src/Tty/Command/Screens.antt =====
-- The commands that save and restore the screen, with others between them.
use blueberry_os.Base.{
  ℕ, ◌≢◌, refl, Bool, true, false, List, [], ◌∷◌, ltb, ◌-◌, ◌+◌, if◌then◌else◌, Option, none, some,
}
use blueberry_os.Tty.{Tty, Cells}
use blueberry_os.Tty.Screen.Saved.{
  KeepsSaved, KeepsSaved-trans, IsRestored, save-KeepsSaved, restore-IsRestored,
}
use blueberry_os.Tty.Screen.{restore_from, terminal_save_screen, terminal_clear_row_from}
use blueberry_os.Tty.Command.{
  Command, save_screen, restore_screen, get_cursor, get_max_win_size, erase_from_cursor, unknown,
  terminal_execute_cmd,
}

-- A call of terminal_execute_cmd with its arguments.
pub record Call : Type 0 where
  pub command : Command
  pub arg0 : ℕ
  pub arg1 : ℕ
  pub ret : Bool

-- The calls in order.
unfoldable pub run_calls : List Call → Tty → Tty
unfolding terminal_execute_cmd
run_calls [] s = s
run_calls (c ∷ calls) s = run_calls calls (terminal_execute_cmd c.command c.arg0 c.arg1 c.ret s).tty

-- No call saves the screen anew.
abbrev pub NoSave : List Call → Type 0
NoSave [] = Unit
NoSave (c ∷ calls) = (c.command ≢ save_screen) × NoSave calls

restored-KeepsSaved :
    (s t : Tty) (o : Option Cells) → KeepsSaved s t → KeepsSaved s (restore_from o t)
unfolding restore_from
restored-KeepsSaved s t none k = k
restored-KeepsSaved s t (some screen) k = KeepsSaved-trans k refl refl refl refl refl refl refl

next_row-KeepsSaved :
    (s t : Tty) (b : Bool) (row : ℕ)
    → KeepsSaved s t
    → KeepsSaved s (if b then record t { terminal_row = row } else t)
next_row-KeepsSaved s t true row k = KeepsSaved-trans k refl refl refl refl refl refl refl
next_row-KeepsSaved s t false row k = k

execute-KeepsSaved :
    (s : Tty) (c : Command) (arg0 arg1 : ℕ) (ret : Bool) (t : Tty)
    → c ≢ save_screen
    → KeepsSaved s t
    → KeepsSaved s (terminal_execute_cmd c arg0 arg1 ret t).tty
unfolding terminal_execute_cmd
execute-KeepsSaved s save_screen arg0 arg1 ret t n k = absurd (n refl)
execute-KeepsSaved s restore_screen arg0 arg1 ret t n k = restored-KeepsSaved s t t.saved_screen k
execute-KeepsSaved s get_cursor arg0 arg1 true t n k = k
execute-KeepsSaved s get_cursor arg0 arg1 false t n k = k
execute-KeepsSaved s get_max_win_size arg0 arg1 true t n k = k
execute-KeepsSaved s get_max_win_size arg0 arg1 false t n k = k
execute-KeepsSaved s erase_from_cursor arg0 arg1 ret t n k =
    let u = terminal_clear_row_from t in
    next_row-KeepsSaved s u (ltb u.terminal_row (u.vga_height - 1)) (u.terminal_row + 1)
      (KeepsSaved-trans k refl refl refl refl refl refl refl)
execute-KeepsSaved s unknown arg0 arg1 ret t n k = k
execute-KeepsSaved s _ arg0 arg1 ret t n k = KeepsSaved-trans k refl refl refl refl refl refl refl

run_calls-KeepsSaved :
    (s : Tty) (calls : List Call) (t : Tty)
    → NoSave calls
    → KeepsSaved s t
    → KeepsSaved s (run_calls calls t)
unfolding run_calls
run_calls-KeepsSaved s [] t n k = k
run_calls-KeepsSaved s (c ∷ calls) t n k =
    run_calls-KeepsSaved s calls (terminal_execute_cmd c.command c.arg0 c.arg1 c.ret t).tty n.1
      (execute-KeepsSaved s c.command c.arg0 c.arg1 c.ret t n.0 k)

-- TTY_SAVE_SCREEN, then any calls of terminal_execute_cmd none of which saves the screen anew, then
-- TTY_RESTORE_SCREEN: the cursor, the colours and every cell on the screen are those of the save.
pub save-restore :
    (s : Tty) (calls : List Call)
    → NoSave calls
    → let saved = (terminal_execute_cmd save_screen 0 0 false s).tty in
      IsRestored s (terminal_execute_cmd restore_screen 0 0 false (run_calls calls saved)).tty
unfolding terminal_execute_cmd
save-restore s calls n =
    restore-IsRestored s (run_calls calls (terminal_save_screen s))
      (run_calls-KeepsSaved s calls (terminal_save_screen s) n (save-KeepsSaved s))
