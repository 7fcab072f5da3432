-- ===== src/Tty/Tests.antt =====
-- The theorems on the terminal, applied to a screen of 25 rows of 80 cells.
use blueberry_os.Base.{
  ℕ, ◌+◌, ◌%◌, ◌≡◌, refl, inl, inr, arith, true, false, none, some, List, [], ◌∷◌,
}
use blueberry_os.Tty.{Tty}
use blueberry_os.Tty.Screen.{terminal_scroll_down}
use blueberry_os.Tty.Screen.Scroll.{terminal_scroll_down_lem}
use blueberry_os.Tty.Screen.Saved.{IsRestored}
use blueberry_os.Tty.Escape.Moves.{OnScreen}
use blueberry_os.Tty.Write.{terminal_writechar, write_chars}
use blueberry_os.Tty.Write.Bounds.{IsValid, Kept}
use blueberry_os.Tty.Write.Total.{terminal_writechar-Kept, write_chars-Kept}
use blueberry_os.Tty.Command.{
  terminal_execute_cmd, save_screen, restore_screen, erase_screen, move_cursor,
}
use blueberry_os.Tty.Command.Screens.{Call, run_calls, save-restore}

-- The cursor stands at the start of the last row, and no escape sequence has begun.
abbrev console : Tty
console = record {
  vga_width = 80;
  vga_height = 25;
  terminal_row = 24;
  terminal_column = 0;
  terminal_buffer = λ a. a % 65536;
  terminal_fg = 7;
  terminal_bg = 0;
  inside_escape = false;
  escape_index = 0;
  private_mode = false;
  arg_buf = λ a. 0;
  arg_index = 0;
  saved_row = 0;
  saved_column = 0;
  saved_fg = 0;
  saved_bg = 0;
  saved_screen = none;
  ports = [];
}

console_on : OnScreen console
console_on = record { row_in = omega arith; column_in = omega arith }

console-IsValid : IsValid console
console-IsValid = record { on = console_on; size = omega arith; groups = refl; saved = tt }

abbrev between : List Call
between =
    record { command = erase_screen; arg0 = 0; arg1 = 0; ret = false }
    ∷ record { command = move_cursor; arg0 = 3; arg1 = 4; ret = false }
    ∷ []

terminal_scroll_down_example :
    (terminal_scroll_down console).terminal_buffer 100 ≡ console.terminal_buffer (100 + 80)
terminal_scroll_down_example = (terminal_scroll_down_lem console 100 (omega arith)).0 (omega arith)

save-restore_example :
    IsRestored console
      (terminal_execute_cmd restore_screen 0 0 false
        (run_calls between (terminal_execute_cmd save_screen 0 0 false console).tty)).tty
save-restore_example = save-restore console between ((λ e. cc), ((λ e. cc), tt))

-- Inside of an escape sequence, behind the first digit of its second argument.
abbrev in_sequence : Tty
in_sequence = record console { inside_escape = true; escape_index = 2; arg_index = 1 }

in_sequence-IsValid : IsValid in_sequence
in_sequence-IsValid = record {
  on = record { row_in = omega arith; column_in = omega arith };
  size = omega arith;
  groups = refl;
  saved = tt;
}

-- The character is `m`.
terminal_writechar_example :
    (t : Tty) × (terminal_writechar 109 true in_sequence ≡ some t) × Kept in_sequence t
terminal_writechar_example =
    terminal_writechar-Kept 109 true in_sequence in_sequence-IsValid (inl (λ e. omega arith)) (
      inr (
        inr (record {
          some_argument = omega arith;
          few_arguments = omega arith;
          index_in = omega arith;
          slot_in = omega arith;
        })))

-- "A", a tab and a line feed.
abbrev plain_text : List ℕ
plain_text = 65 ∷ 9 ∷ 10 ∷ []

write_chars_example : (t : Tty) × (write_chars plain_text console ≡ some t) × Kept console t
write_chars_example = write_chars-Kept plain_text console console-IsValid refl (
  λ e. omega arith,
  λ e. omega arith,
  (λ e. omega arith, λ e. omega arith, (λ e. omega arith, λ e. omega arith, tt)),
)
