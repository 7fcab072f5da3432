-- ===== src/Tty/Screen.antt =====
-- tty.c: clearing, scrolling, saving and restoring the screen, and the hardware cursor.
-- The screen has at least one row, so `VGA_HEIGHT-1` does not wrap.
pub mod Fill
pub mod Scroll
pub mod Saved
use blueberry_os.Base.{
  ℕ, zero, suc, ◌+◌, ◌-◌, ◌*◌, ◌/◌, ◌%◌, ◌^◌, ◌==◌, Bool, ltb, if◌then◌else◌, Option, none, some,
  List, [], ◌∷◌, ◌++◌, u8, u32, sub32,
}
use blueberry_os.Tty.{Tty, Cells, vga_default_fg, vga_default_bg, default_blank, blank, write_cell}

-- `for (i = ...; i < ...; i++) terminal_buffer[index + i] = v;` with `n` rounds left.
unfoldable pub fill_cells : ℕ → ℕ → ℕ → ℕ → Cells → Cells
fill_cells zero i index v buf = buf
fill_cells (suc n) i index v buf = fill_cells n (i + 1) index v (write_cell buf (index + i) v)

-- The outer loop of terminal_clear, from row `y` on.
unfoldable pub clear_rows : ℕ → ℕ → ℕ → ℕ → Cells → Cells
unfolding fill_cells
clear_rows zero y w v buf = buf
clear_rows (suc n) y w v buf = clear_rows n (y + 1) w v (fill_cells w 0 (y * w) v buf)

unfoldable pub terminal_clear : Tty → Tty
unfolding clear_rows
terminal_clear s = record s {
  terminal_buffer = clear_rows s.vga_height 0 s.vga_width default_blank s.terminal_buffer;
}

unfoldable pub terminal_clear_row : Tty → Tty
unfolding fill_cells
terminal_clear_row s =
    let index = u32 (s.terminal_row * s.vga_width) in
    record s {
      terminal_buffer = fill_cells s.vga_width 0 index default_blank s.terminal_buffer;
      terminal_column = 0;
    }

unfoldable pub terminal_clear_row_from : Tty → Tty
unfolding fill_cells
terminal_clear_row_from s =
    let index = u32 (s.terminal_row * s.vga_width) in
    record s {
      terminal_buffer =
          fill_cells (s.vga_width - s.terminal_column) s.terminal_column index default_blank
            s.terminal_buffer;
      terminal_column = 0;
    }

unfoldable pub terminal_clear_row_to : Tty → Tty
unfolding fill_cells
terminal_clear_row_to s =
    let index = u32 (s.terminal_row * s.vga_width) in
    record s {
      terminal_buffer = fill_cells s.terminal_column 0 index default_blank s.terminal_buffer;
      terminal_column = 0;
    }

-- `memcpy(dst, src, sizeof(uint16_t) * n)` between two screens.
unfoldable pub copy_cells : ℕ → Cells → Cells → Cells
copy_cells n src dst i = if ltb i n then src i else dst i

-- The memory that kmalloc returns; only its cells on the screen are read, and the copy fills those.
abbrev fresh_screen : Cells
fresh_screen i = 0

unfoldable pub saved_or_fresh : Option Cells → Cells
saved_or_fresh none = fresh_screen
saved_or_fresh (some screen) = screen

unfoldable pub terminal_save_screen : Tty → Tty
unfolding copy_cells saved_or_fresh
terminal_save_screen s = record s {
  saved_screen =
      some
        (copy_cells (s.vga_width * s.vga_height) s.terminal_buffer (saved_or_fresh s.saved_screen));
  saved_row = s.terminal_row;
  saved_column = s.terminal_column;
  saved_fg = s.terminal_fg;
  saved_bg = s.terminal_bg;
}

unfoldable pub restore_from : Option Cells → Tty → Tty
unfolding copy_cells
restore_from none s = s
restore_from (some screen) s = record s {
  terminal_buffer = copy_cells (s.vga_width * s.vga_height) screen s.terminal_buffer;
  terminal_row = s.saved_row;
  terminal_column = s.saved_column;
  terminal_fg = s.saved_fg;
  terminal_bg = s.saved_bg;
}

unfoldable pub terminal_restore_screen : Tty → Tty
unfolding restore_from
terminal_restore_screen s = restore_from s.saved_screen s

-- `io_outb(port, value)`
unfoldable pub io_outb : ℕ → ℕ → Tty → Tty
io_outb port value s = record s { ports = (port, u8 value) ∷ s.ports }

unfoldable pub enable_cursor : ℕ → ℕ → Tty → Tty
unfolding io_outb
enable_cursor cursor_start cursor_end s =
    io_outb 0x3D5 cursor_end
      (io_outb 0x3D4 0x0B (io_outb 0x3D5 cursor_start (io_outb 0x3D4 0x0A s)))

unfoldable pub terminal_initialize : ℕ → ℕ → Cells → Tty → Tty
unfolding terminal_clear enable_cursor
terminal_initialize width height buffer s = enable_cursor 0 15 (
    terminal_clear (record s {
      vga_width = width;
      vga_height = height;
      terminal_row = 0;
      terminal_column = 0;
      terminal_buffer = buffer;
      terminal_fg = vga_default_fg;
      terminal_bg = vga_default_bg;
    }))

-- The position is a `uint16_t`.
unfoldable pub terminal_move_cursor : ℕ → ℕ → Tty → Tty
unfolding io_outb
terminal_move_cursor x y s =
    let pos = (y * s.vga_width + x) % 2 ^ 16 in
    io_outb 0x3D5 (pos / 256)
      (io_outb 0x3D4 0x0E (io_outb 0x3D5 (pos % 256) (io_outb 0x3D4 0x0F s)))

-- The inner loop of terminal_scroll_down: `buf[index_cur] = buf[index_cur + width]` along a row.
unfoldable pub pull_row : ℕ → ℕ → ℕ → ℕ → Cells → Cells
pull_row zero x index w buf = buf
pull_row (suc n) x index w buf =
    pull_row n (x + 1) index w (write_cell buf (index + x) (buf (index + x + w)))

unfoldable pub pull_rows : ℕ → ℕ → ℕ → Cells → Cells
unfolding pull_row
pull_rows zero y w buf = buf
pull_rows (suc n) y w buf = pull_rows n (y + 1) w (pull_row w 0 (y * w) w buf)

unfoldable pub terminal_scroll_down : Tty → Tty
unfolding fill_cells pull_rows
terminal_scroll_down s =
    let pulled = pull_rows (s.vga_height - 1) 0 s.vga_width s.terminal_buffer in
    let last = (s.vga_height - 1) * s.vga_width in
    record s {
      terminal_row = s.vga_height - 1;
      terminal_buffer = fill_cells s.vga_width 0 last (blank s) pulled;
    }
