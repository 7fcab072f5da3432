-- ===== src/Tty/Write.antt =====
-- tty.c: terminal_writechar, terminal_write and terminal_writestring.
pub mod Bounds
pub mod Steps
pub mod Runs
pub mod Sequences
pub mod Stays
pub mod Returns
pub mod Total
use mathlib.Core.Option
use blueberry_os.Base.{
  ℕ, zero, suc, ◌+◌, ◌-◌, ◌%◌, ◌^◌, ◌==◌, Bool, true, false, leb, if◌then◌else◌, Option, none, some,
  List, [], ◌∷◌, u32, add32, sub32,
}
use blueberry_os.Libc.Mem.{Mem}
use blueberry_os.Tty.{Tty, vga_entry, vga_color, blank, write_cell, cursor_index}
use blueberry_os.Tty.Screen.{terminal_scroll_down, terminal_move_cursor}
use blueberry_os.Tty.Escape.{escape_char}

-- `if (terminal_row >= VGA_HEIGHT) terminal_scroll_down();`
unfoldable pub scroll_if_below : Tty → Tty
unfolding terminal_scroll_down
scroll_if_below s = if leb s.vga_height s.terminal_row then terminal_scroll_down s else s

-- `terminal_column++`, and on to the next row behind the last column.
unfoldable pub advance : Tty → Tty
unfolding scroll_if_below
advance s =
    let column = add32 s.terminal_column 1 in
    if leb s.vga_width column
    then scroll_if_below (record s { terminal_column = 0; terminal_row = add32 s.terminal_row 1 })
    else record s { terminal_column = column }

-- `if (updateCursor) terminal_move_cursor(terminal_column, terminal_row);`
unfoldable pub update_cursor : Bool → Tty → Tty
unfolding terminal_move_cursor
update_cursor update s =
    if update then terminal_move_cursor s.terminal_column s.terminal_row s else s

-- A cell in the current colours, and the cursor moved on.
unfoldable pub put_char : ℕ → ℕ → Tty → Tty
unfolding write_cell vga_entry vga_color advance
put_char index c s = advance (record s {
  terminal_buffer =
      write_cell s.terminal_buffer index (vga_entry c (vga_color s.terminal_fg s.terminal_bg));
})

-- The loop of a tab; `index` is the cursor's when the loop begins.
unfoldable pub tab_loop : ℕ → ℕ → ℕ → Tty → Tty
unfolding put_char
tab_loop zero i index s = s
tab_loop (suc n) i index s = tab_loop n (i + 1) index (put_char (index + i) b' ' s)

-- `4 - (index & 3)` rounds.
unfoldable pub write_tab : ℕ → Tty → Tty
unfolding tab_loop
write_tab index s = tab_loop (4 - index % 4) 0 index s

unfoldable pub newline : Tty → Tty
unfolding scroll_if_below
newline s =
    scroll_if_below (record s { terminal_column = 0; terminal_row = add32 s.terminal_row 1 })

unfoldable pub begin_escape : Tty → Tty
begin_escape s = record s {
  escape_index = 0;
  arg_index = 0;
  inside_escape = true;
  private_mode = false;
}

unfoldable pub terminal_writechar : ℕ → Bool → Tty → Option Tty
unfolding newline write_tab begin_escape escape_char put_char update_cursor
terminal_writechar c update s =
    if c == 0
    then some s
    else if c == b'\n'
    then some (update_cursor update (newline s))
    else if c == 8
    then some (update_cursor update (record s { terminal_column = sub32 s.terminal_column 1 }))
    else if c == 9
    then some (update_cursor update (write_tab (cursor_index s) s))
    else if c == 27
    then some (begin_escape s)
    else if s.inside_escape
    then escape_char c s
    else some (update_cursor update (put_char (cursor_index s) c s))

-- The characters in order, without a cursor update.
unfoldable pub write_chars : List ℕ → Tty → Option Tty
unfolding terminal_writechar
write_chars [] s = some s
write_chars (c ∷ string) s = Option.bind (terminal_writechar c false s) (write_chars string)

-- `string` is the `size` bytes, or the text in front of the NUL.
unfoldable pub terminal_write : List ℕ → Tty → Option Tty
unfolding write_chars terminal_move_cursor
terminal_write string s =
    Option.map (λ s'. terminal_move_cursor s'.terminal_column s'.terminal_row s')
      (write_chars string s)

-- `while (string[i] != 0)`; the bytes from the first NUL on are not written.
unfoldable pub until_nul : List ℕ → List ℕ
until_nul [] = []
until_nul (c ∷ string) = let rest = c ∷ until_nul string in if c == 0 then [] else rest

unfoldable pub terminal_writestring : List ℕ → Tty → Option Tty
unfolding terminal_write until_nul
terminal_writestring string s = terminal_write (until_nul string) s
