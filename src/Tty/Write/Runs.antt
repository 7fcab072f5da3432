-- ===== src/Tty/Write/Runs.antt =====
-- The commands that an escape sequence names stay on the screen.
use blueberry_os.Base.{
  ℕ, ◌+◌, ◌*◌, ◌≤◌, ◌<◌, ◌≡◌, refl, ap, arith, Bool-cases, inl, inr, ◌==◌, ◌&&◌, u32, Option, none,
  some,
}
use blueberry_os.Tty.{Tty, Cells, default_blank, vga_default_fg, vga_default_bg}
use blueberry_os.Tty.Screen.{
  copy_cells, restore_from, terminal_clear, terminal_clear_row, terminal_save_screen,
  terminal_restore_screen,
}
use blueberry_os.Tty.Screen.Fill.{fill_cells_out, terminal_clear_lem}
use blueberry_os.Tty.Escape.{reset_color, change_color, erase_screen, erase_line, private_command}
use blueberry_os.Tty.Escape.Moves.{MovedTo}
use blueberry_os.Tty.Write.Bounds.{SavedIn, IsValid, Within, Kept, Kept-refl}

pub MovedTo-Kept : (s t : Tty) (p : ℕ) → IsValid s → MovedTo s t p → Kept s t
MovedTo-Kept s t p v m = record {
  valid = record {
    on = m.on;
    size = rw (m.screen.width, m.screen.height) v.size;
    groups = rw (m.screen.width, m.screen.height) v.groups;
    saved =
        rw
          (
            m.screen.saved_screen, m.screen.saved_row, m.screen.saved_column, m.screen.width,
            m.screen.height,
          )
          v.saved;
  };
  within = record {
    width = m.screen.width;
    height = m.screen.height;
    beyond = λ a h. ap (λ (b : Cells). b a) m.screen.buffer;
  };
}

-- A step that leaves the size, the saved screen and the cells beyond the screen alone, and puts the
-- cursor on the screen.
pub stays :
    (s : Tty) (t : Tty)
    → IsValid s
    → Within s t
    → t.saved_screen ≡ s.saved_screen
    → t.saved_row ≡ s.saved_row
    → t.saved_column ≡ s.saved_column
    → t.terminal_row < s.vga_height
    → t.terminal_column < s.vga_width
    → Kept s t
stays s t v w e0 e1 e2 row column = record {
  valid = record {
    on = record { row_in = rw w.height row; column_in = rw w.width column };
    size = rw (w.width, w.height) v.size;
    groups = rw (w.width, w.height) v.groups;
    saved = rw (e0, e1, e2, w.width, w.height) v.saved;
  };
  within = w;
}

recolored : (s : Tty) (fg bg : ℕ) → Within s (record s { terminal_fg = fg; terminal_bg = bg })
recolored s fg bg = record { width = refl; height = refl; beyond = λ a h. refl }

pub reset_color-Kept : (fg : ℕ) (s : Tty) → IsValid s → Kept s (reset_color fg s)
unfolding reset_color
reset_color-Kept fg s v = elim (Bool-cases (fg == 0)) [
  | inl z ↦ rw z (
      stays s (record s { terminal_fg = vga_default_fg; terminal_bg = vga_default_bg }) v
        (recolored s vga_default_fg vga_default_bg) refl refl refl v.on.row_in v.on.column_in)
  | inr n ↦ rw n (Kept-refl s v)
]

pub change_color-Kept : (fg bg : ℕ) (s : Tty) → IsValid s → Kept s (change_color fg bg s)
unfolding change_color
change_color-Kept fg bg s v =
    stays s (change_color fg bg s) v (record { width = refl; height = refl; beyond = λ a h. refl })
      refl refl refl v.on.row_in v.on.column_in

pub erase_screen-Kept : (num : ℕ) (s : Tty) → IsValid s → Kept s (erase_screen num s)
unfolding erase_screen terminal_clear
erase_screen-Kept num s v = elim (Bool-cases (num == 2)) [
  | inl z ↦ rw z (
      stays s (record (terminal_clear s) { terminal_row = 0; terminal_column = 0 }) v
        (record {
          width = refl;
          height = refl;
          beyond = λ a h. (terminal_clear_lem s a).1 (omega arith);
        })
        refl refl refl (omega (arith, v.on.row_in)) (omega (arith, v.on.column_in)))
  | inr n ↦ rw n (Kept-refl s v)
]

row_inside : (r h w : ℕ) → r < h → r * w + w ≤ h * w
row_inside r h w p = grind arith

pub erase_line-Kept : (num : ℕ) (s : Tty) → IsValid s → Kept s (erase_line num s)
unfolding erase_line terminal_clear_row
erase_line-Kept num s v = elim (Bool-cases (num == 2)) [
  | inl z ↦
      let inside = row_inside s.terminal_row s.vga_height s.vga_width v.on.row_in in
      rw z (
        stays s (terminal_clear_row s) v
          (record {
            width = refl;
            height = refl;
            beyond = λ a h.
                fill_cells_out s.vga_width 0 (u32 (s.terminal_row * s.vga_width)) default_blank
                  s.terminal_buffer a (inr (omega arith));
          })
          refl refl refl v.on.row_in (omega (arith, v.on.column_in)))
  | inr n ↦ rw n (Kept-refl s v)
]

restore_from-Kept :
    (s : Tty) (o : Option Cells)
    → IsValid s
    → SavedIn o s.saved_row s.saved_column s.vga_height s.vga_width
    → Kept s (restore_from o s)
unfolding restore_from copy_cells
restore_from-Kept s none v inside = Kept-refl s v
restore_from-Kept s (some screen) v inside =
    stays s (restore_from (some screen) s) v
      (record { width = refl; height = refl; beyond = λ a h. ground arith }) refl refl refl inside.0
      inside.1

save-Kept : (s : Tty) → IsValid s → Kept s (terminal_save_screen s)
unfolding terminal_save_screen
save-Kept s v = record {
  valid = record {
    on = record { row_in = v.on.row_in; column_in = v.on.column_in };
    size = v.size;
    groups = v.groups;
    saved = (v.on.row_in, v.on.column_in);
  };
  within = record { width = refl; height = refl; beyond = λ a h. refl };
}

pub private_command-Kept :
    (type num : ℕ) (s : Tty) → IsValid s → Kept s (private_command type num s)
unfolding private_command terminal_restore_screen
private_command-Kept type num s v = elim (Bool-cases (num == 47 && type == b'h')) [
  | inl save ↦ rw save (save-Kept s v)
  | inr n ↦ elim (Bool-cases (num == 47 && type == b'l')) [
    | inl load ↦ rw (n, load) (restore_from-Kept s s.saved_screen v v.saved)
    | inr m ↦ rw (n, m) (Kept-refl s v)
  ]
]
