-- ===== src/Tty/Escape.antt =====
-- tty.c: parseArgs, which runs an escape sequence, and the bytes inside of one.
-- The screen has at least one row and one column, so `VGA_WIDTH-1` and `VGA_HEIGHT-1` do not wrap.
pub mod Moves
use mathlib.Core.Option
use blueberry_os.Base.{
  ℕ, zero, suc, ◌+◌, ◌-◌, ◌*◌, ◌/◌, ◌%◌, ◌^◌, ◌==◌, Bool, true, false, ◌&&◌, leb, if◌then◌else◌,
  Option, none, some, u8, u32, add32, sub32,
}
use blueberry_os.Libc.Mem.{Mem, write8}
use blueberry_os.Libc.Number.{atoi}
use blueberry_os.Tty.{Tty, Cells, vga_default_fg, vga_default_bg}
use blueberry_os.Tty.Screen.{
  terminal_clear, terminal_clear_row, terminal_save_screen, terminal_restore_screen,
}

abbrev pub buf_size : ℕ
buf_size = 8

abbrev pub buf_count : ℕ
buf_count = 4

-- `argBuf[e - 1][a]`, with the unsigned wrap of `e - 1`.
abbrev pub arg_slot : ℕ → ℕ → ℕ
arg_slot e a = u32 (sub32 e 1 * buf_size + a)

-- `atoi(argBuf[k])`. A terminator that escape_char wrote stands within the 33 bytes from argBuf on.
unfoldable pub arg_value : Tty → ℕ → Option ℕ
unfolding atoi
arg_value s k = atoi 34 s.arg_buf (k * buf_size)

-- `while (num)` of `\e[#D`: one column to the left, over the edge to the row above.
unfoldable pub move_left : ℕ → Tty → Tty
move_left zero s = s
move_left (suc num) s =
    let back =
      if s.terminal_column == 0
      then record s { terminal_column = s.vga_width - 1; terminal_row = s.terminal_row - 1 }
      else record s { terminal_column = s.terminal_column - 1 } in
    let rest = move_left num back in
    if s.terminal_column == 0 && s.terminal_row == 0 then s else rest

-- `while (num)` of `\e[#C`.
unfoldable pub move_right : ℕ → Tty → Tty
move_right zero s = s
move_right (suc num) s =
    let on =
      if s.terminal_column == s.vga_width - 1
      then record s { terminal_column = 0; terminal_row = s.terminal_row + 1 }
      else record s { terminal_column = s.terminal_column + 1 } in
    let rest = move_right num on in
    if s.terminal_column == s.vga_width - 1 && s.terminal_row == s.vga_height - 1 then s else rest

-- `type == 'm'` with one argument, and with two.
unfoldable pub reset_color : ℕ → Tty → Tty
reset_color fg s =
    if fg == 0 then record s { terminal_fg = vga_default_fg; terminal_bg = vga_default_bg } else s

-- The tests are on the colours in use, not on the arguments.
unfoldable pub change_color : ℕ → ℕ → Tty → Tty
change_color fg bg s = record s {
  terminal_fg = if s.terminal_fg == 0 then vga_default_fg else u8 (sub32 fg 30);
  terminal_bg = if s.terminal_bg == 0 then vga_default_bg else u8 (sub32 bg 46);
}

unfoldable pub erase_screen : ℕ → Tty → Tty
unfolding terminal_clear
erase_screen num s =
    if num == 2 then record (terminal_clear s) { terminal_row = 0; terminal_column = 0 } else s

unfoldable pub erase_line : ℕ → Tty → Tty
unfolding terminal_clear_row
erase_line num s = if num == 2 then terminal_clear_row s else s

unfoldable pub private_command : ℕ → ℕ → Tty → Tty
unfolding terminal_save_screen terminal_restore_screen
private_command type num s =
    if num == 47 && type == b'h'
    then terminal_save_screen s
    else if num == 47 && type == b'l'
    then terminal_restore_screen s
    else s

-- The command that a sequence's last character names, run on its first argument.
unfoldable pub run_command : ℕ → ℕ → Tty → Option Tty
unfolding reset_color change_color erase_screen erase_line move_left move_right private_command
    arg_value
run_command type num s =
    if type == b'm'
    then (if s.escape_index == 1
        then some (reset_color num s)
        else Option.map (λ bg. change_color num bg s) (arg_value s 1))
    else if type == b'J'
    then some (erase_screen num s)
    else if type == b'K'
    then some (erase_line num s)
    else if type == b'D'
    then some (move_left num s)
    else if type == b'C'
    then some (move_right num s)
    else if s.private_mode
    then some (private_command type num s)
    else some s

-- Every branch but the last `else` reads the first argument; there the value is not used.
unfoldable pub parse_args : ℕ → Tty → Option Tty
unfolding run_command arg_value
parse_args type s = Option.bind (arg_value s 0) λ num. run_command type num s

unfoldable pub leave_escape : Tty → Tty
leave_escape s = record s { inside_escape = false }

-- One character while `insideEscape` is set. A slot beyond the 32 bytes of argBuf is kept in `arg_buf`,
-- where the program writes over other memory.
unfoldable pub escape_char : ℕ → Tty → Option Tty
unfolding parse_args write8 leave_escape
escape_char c s =
    if c == b'['
    then (if s.escape_index == 0
        then some (record s { escape_index = s.escape_index + 1 })
        else some (record s { inside_escape = false }))
    else if s.escape_index == 1 && c == b'?'
    then some (record s { private_mode = true })
    else if leb 1 s.escape_index && leb b'0' c && leb c b'9'
    then (if leb buf_size s.arg_index
        then some s
        else some (record s {
          arg_buf = write8 s.arg_buf (arg_slot s.escape_index s.arg_index) c;
          arg_index = s.arg_index + 1;
        }))
    else if c == b';'
    then some (record s {
      arg_buf =
          if leb buf_count (sub32 s.escape_index 1)
          then s.arg_buf
          else if leb buf_size s.arg_index
          then s.arg_buf
          else write8 s.arg_buf (arg_slot s.escape_index s.arg_index) 0;
      escape_index = add32 s.escape_index 1;
      arg_index = 0;
    })
    else Option.map leave_escape (
        parse_args c
          (record s { arg_buf = write8 s.arg_buf (arg_slot s.escape_index s.arg_index) 0 }))
