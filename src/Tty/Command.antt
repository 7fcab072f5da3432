-- ===== src/Tty/Command.antt =====
-- tty.c: terminal_execute_cmd, the commands of bits/tty.h.
pub mod Screens
use blueberry_os.Base.{
  ℕ, zero, suc, ◌+◌, ◌-◌, ◌*◌, ◌/◌, ◌%◌, ◌^◌, ◌==◌, Bool, true, false, leb, ltb, if◌then◌else◌,
  Option, none, some, u8, u32, add32, sub32,
}
use blueberry_os.Base.Int.{ℤ, pos, negsuc}
use blueberry_os.Tty.{Tty, Cells, vga_default_fg, vga_default_bg, blank, cursor_index}
use blueberry_os.Tty.Screen.{
  fill_cells, terminal_clear, terminal_clear_row, terminal_clear_row_from, terminal_clear_row_to,
  terminal_save_screen, terminal_restore_screen, terminal_move_cursor,
}

-- The numbers of bits/tty.h; any other number is `unknown`.
pub data Command : Type 0 where
  change_color reset_modes erase_screen erase_line save_screen restore_screen : Command
  get_cursor move_cursor get_max_win_size erase_from_cursor erase_to_cursor : Command
  delete_characters unknown : Command

-- What a call gives back: the code, and what it stores through `*ret[0]` and `*ret[1]`.
pub record Reply : Type 0 where
  pub tty : Tty
  pub code : ℤ
  pub stored : Option (ℕ × ℕ)

abbrev pub done : Tty → Reply
done s = record { tty = s; code = pos 0; stored = none }

abbrev pub failed : Tty → Reply
failed s = record { tty = s; code = negsuc 0; stored = none }

-- `memmove(&buf[index], &buf[index + n], bytes)`: the cells have two bytes each, the low one first.
unfoldable pub move_bytes : ℕ → ℕ → ℕ → Cells → Cells
move_bytes index n bytes buf i =
    if ltb i index
    then buf i
    else if ltb i (index + bytes / 2)
    then buf (i + n)
    else if i == index + bytes / 2
    then (if bytes % 2 == 1 then buf i / 256 * 256 + buf (i + n) % 256 else buf i)
    else buf i

-- `n` is an `int` as its bit pattern: the `for` makes no round where it is negative.
unfoldable pub delete_at_cursor : ℕ → ℕ → Tty → Tty
unfolding fill_cells move_bytes
delete_at_cursor n width s =
    let index = sub32 (s.terminal_row * s.vga_width + s.terminal_column) 1 in
    let moved = move_bytes index n (sub32 width n) s.terminal_buffer in
    record s {
      terminal_buffer =
          fill_cells (if leb 2147483648 n then 0 else n) 0 (index + width - n) (blank s) moved;
    }

-- `arg0` and `arg1` are `args[0]` and `args[1]` as bit patterns; `ret` is whether `ret` is not null.
unfoldable pub terminal_execute_cmd : Command → ℕ → ℕ → Bool → Tty → Reply
unfolding terminal_clear terminal_clear_row terminal_clear_row_from terminal_clear_row_to
    terminal_save_screen terminal_restore_screen terminal_move_cursor delete_at_cursor
terminal_execute_cmd change_color arg0 arg1 ret s = done (record s {
  terminal_fg = if arg0 == 0 then vga_default_fg else u8 (sub32 arg0 30);
  terminal_bg = if arg1 == 0 then vga_default_bg else u8 (sub32 arg1 46);
})
terminal_execute_cmd reset_modes arg0 arg1 ret s =
    done (record s { terminal_fg = vga_default_fg; terminal_bg = vga_default_bg })
terminal_execute_cmd erase_screen arg0 arg1 ret s =
    done (record (terminal_clear s) { terminal_row = 0; terminal_column = 0 })
terminal_execute_cmd erase_line arg0 arg1 ret s = done (terminal_clear_row s)
terminal_execute_cmd save_screen arg0 arg1 ret s = done (terminal_save_screen s)
terminal_execute_cmd restore_screen arg0 arg1 ret s = done (terminal_restore_screen s)
terminal_execute_cmd get_cursor arg0 arg1 ret s =
    if ret
    then record { tty = s; code = pos 0; stored = some (s.terminal_row, s.terminal_column) }
    else failed s
terminal_execute_cmd move_cursor arg0 arg1 ret s =
    done (terminal_move_cursor arg1 arg0 (record s { terminal_row = arg0; terminal_column = arg1 }))
terminal_execute_cmd get_max_win_size arg0 arg1 ret s =
    if ret
    then record { tty = s; code = pos 0; stored = some (s.vga_width, s.vga_height) }
    else failed s
terminal_execute_cmd erase_from_cursor arg0 arg1 ret s =
    let s' = terminal_clear_row_from s in
    done (
      if ltb s'.terminal_row (s'.vga_height - 1)
      then record s' { terminal_row = s'.terminal_row + 1 }
      else s')
terminal_execute_cmd erase_to_cursor arg0 arg1 ret s = done (terminal_clear_row_to s)
terminal_execute_cmd delete_characters arg0 arg1 ret s = done (delete_at_cursor arg0 arg1 s)
terminal_execute_cmd unknown arg0 arg1 ret s = failed s
