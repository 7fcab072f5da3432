-- ===== src/Tty.antt =====
-- kernel/src/tty.c: the text terminal. Its file-level variables are the fields of one record.
pub mod Screen
pub mod Escape
pub mod Write
pub mod Command
mod Tests
use Prim.Native.Nat.{bit_or}
use blueberry_os.Base.{ℕ, ◌+◌, ◌*◌, ◌%◌, ◌^◌, ◌==◌, Bool, if◌then◌else◌, Option, List, u8, u32}
use blueberry_os.Libc.Mem.{Mem}

-- Cells of 16 bits by index: `terminal_buffer`, and what lies around it.
abbrev pub Cells : Type 0
Cells = ℕ → ℕ

pub record Tty : Type 0 where
  pub vga_width : ℕ
  pub vga_height : ℕ
  pub terminal_row : ℕ
  pub terminal_column : ℕ
  pub terminal_buffer : Cells
  pub terminal_fg : ℕ
  pub terminal_bg : ℕ
  pub inside_escape : Bool
  pub escape_index : ℕ
  pub private_mode : Bool
  -- `argBuf[e][a]` is the byte at `e * 8 + a`; what follows the 32 bytes are other variables.
  pub arg_buf : Mem
  pub arg_index : ℕ
  pub saved_row : ℕ
  pub saved_column : ℕ
  pub saved_fg : ℕ
  pub saved_bg : ℕ
  -- `none` for a null pointer
  pub saved_screen : Option Cells
  -- the bytes written to I/O ports, the last one first
  pub ports : List (ℕ × ℕ)

-- VGA_LIGHT_GRAY and VGA_BLACK
abbrev pub vga_default_fg : ℕ
vga_default_fg = 7

abbrev pub vga_default_bg : ℕ
vga_default_bg = 0

unfoldable pub vga_entry : ℕ → ℕ → ℕ
vga_entry c color = u8 color * 256 + u8 c

unfoldable pub vga_color : ℕ → ℕ → ℕ
vga_color fg bg = u8 (bit_or (bg * 16) fg)

-- `vga_entry(' ', vga_color(VGA_DEFAULT_FG, VGA_DEFAULT_BG))`
abbrev pub default_blank : ℕ
default_blank = vga_entry b' ' (vga_color vga_default_fg vga_default_bg)

-- A blank in the current colours.
abbrev pub blank : Tty → ℕ
blank s = vga_entry b' ' (vga_color s.terminal_fg s.terminal_bg)

-- `terminal_buffer[index] = v`
unfoldable pub write_cell : Cells → ℕ → ℕ → Cells
write_cell buf index v i = if i == index then v else buf i

-- `terminal_row * VGA_WIDTH + terminal_column`
abbrev pub cursor_index : Tty → ℕ
cursor_index s = u32 (s.terminal_row * s.vga_width + s.terminal_column)
