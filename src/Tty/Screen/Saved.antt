-- ===== src/Tty/Screen/Saved.antt =====
-- Saving and restoring the screen.
use blueberry_os.Base.{ℕ, ◌*◌, ◌<◌, ◌≡◌, refl, sym, subst, ◌∙◌, arith, some}
use blueberry_os.Tty.{Tty, Cells}
use blueberry_os.Tty.Screen.{
  copy_cells, restore_from, saved_or_fresh, terminal_save_screen, terminal_restore_screen,
}

-- `t` holds what terminal_save_screen kept of `s`, and its screen has the same size.
pub record KeepsSaved (s t : Tty) : Type 0 where
  pub screen : t.saved_screen ≡ (terminal_save_screen s).saved_screen
  pub row : t.saved_row ≡ s.terminal_row
  pub column : t.saved_column ≡ s.terminal_column
  pub fg : t.saved_fg ≡ s.terminal_fg
  pub bg : t.saved_bg ≡ s.terminal_bg
  pub width : t.vga_width ≡ s.vga_width
  pub height : t.vga_height ≡ s.vga_height

pub save-KeepsSaved : (s : Tty) → KeepsSaved s (terminal_save_screen s)
unfolding terminal_save_screen
save-KeepsSaved s = record {
  screen = refl;
  row = refl;
  column = refl;
  fg = refl;
  bg = refl;
  width = refl;
  height = refl;
}

-- What a restore brings back of `s`: the cursor, the colours, and every cell on the screen.
pub record IsRestored (s t : Tty) : Type 0 where
  pub row : t.terminal_row ≡ s.terminal_row
  pub column : t.terminal_column ≡ s.terminal_column
  pub fg : t.terminal_fg ≡ s.terminal_fg
  pub bg : t.terminal_bg ≡ s.terminal_bg
  pub cells : (a : ℕ) → a < s.vga_width * s.vga_height → t.terminal_buffer a ≡ s.terminal_buffer a

-- A change that leaves the saved screen and the size alone.
pub KeepsSaved-trans :
    {s t u : Tty}
    → KeepsSaved s t
    → u.saved_screen ≡ t.saved_screen
    → u.saved_row ≡ t.saved_row
    → u.saved_column ≡ t.saved_column
    → u.saved_fg ≡ t.saved_fg
    → u.saved_bg ≡ t.saved_bg
    → u.vga_width ≡ t.vga_width
    → u.vga_height ≡ t.vga_height
    → KeepsSaved s u
KeepsSaved-trans k e0 e1 e2 e3 e4 e5 e6 = record {
  screen = e0 ∙ k.screen;
  row = e1 ∙ k.row;
  column = e2 ∙ k.column;
  fg = e3 ∙ k.fg;
  bg = e4 ∙ k.bg;
  width = e5 ∙ k.width;
  height = e6 ∙ k.height;
}

restore_from-IsRestored :
    (s t : Tty) (base : Cells)
    → KeepsSaved s t
    → IsRestored s
        (restore_from (some (copy_cells (s.vga_width * s.vga_height) s.terminal_buffer base)) t)
unfolding restore_from copy_cells
restore_from-IsRestored s t base k = record {
  row = k.row;
  column = k.column;
  fg = k.fg;
  bg = k.bg;
  cells = λ a h. rw (k.width, k.height) (ground arith);
}

pub restore-IsRestored : (s t : Tty) → KeepsSaved s t → IsRestored s (terminal_restore_screen t)
unfolding terminal_restore_screen terminal_save_screen
restore-IsRestored s t k =
    subst (λ o. IsRestored s (restore_from o t)) (sym k.screen)
      (restore_from-IsRestored s t (saved_or_fresh s.saved_screen) k)
