-- ===== src/Tty/Screen/Scroll.antt =====
-- terminal_scroll_down moves every row up by one and blanks the last.
use blueberry_os.Base.{
  ℕ, zero, suc, ◌+◌, ◌-◌, ◌*◌, ◌≤◌, ◌<◌, ◌≡◌, inl, inr, refl, arith, ◌==◌, Bool-cases, ◌∙◌,
}
use blueberry_os.Tty.{Tty, Cells, blank, write_cell}
use blueberry_os.Tty.Screen.{pull_row, pull_rows, terminal_scroll_down}
use blueberry_os.Tty.Screen.Fill.{
  write_cell_self, write_cell_ne, Beyond, fill_cells_in, fill_cells_out,
}

pull_row_out :
    (n x index w : ℕ) (buf : Cells) (a : ℕ)
    → Beyond a (index + x) n
    → pull_row n x index w buf a ≡ buf a
unfolding pull_row
pull_row_out zero x index w buf a h = refl
pull_row_out (suc n) x index w buf a h = ground (
  arith,
  pull_row_out n (x + 1) index w (write_cell buf (index + x) (buf (index + x + w))) a,
  write_cell_ne buf (index + x) (buf (index + x + w)) a,
)

pull_row_in :
    (n x index w : ℕ) (buf : Cells) (a : ℕ)
    → index + x ≤ a
    → a < index + x + n
    → pull_row n x index w buf a ≡ buf (a + w)
unfolding pull_row
pull_row_in zero x index w buf a lo hi = absurd (omega arith)
pull_row_in (suc n) x index w buf a lo hi =
    let buf' = write_cell buf (index + x) (buf (index + x + w)) in
    elim (Bool-cases (a == index + x)) [
      | inl e ↦ ground (
        arith,
        pull_row_out n (x + 1) index w buf' a,
        write_cell_self buf (index + x) (buf (index + x + w)),
      )
      | inr ne ↦ ground (
        arith,
        pull_row_in n (x + 1) index w buf' a,
        write_cell_ne buf (index + x) (buf (index + x + w)) (a + w),
      )
    ]

pull_rows_out :
    (n y w : ℕ) (buf : Cells) (a : ℕ) → Beyond a (y * w) (n * w) → pull_rows n y w buf a ≡ buf a
unfolding pull_rows
pull_rows_out zero y w buf a h = refl
pull_rows_out (suc n) y w buf a h = ground (
  arith,
  pull_rows_out n (y + 1) w (pull_row w 0 (y * w) w buf) a,
  pull_row_out w 0 (y * w) w buf a,
)

pull_rows_in :
    (n y w : ℕ) (buf : Cells) (a : ℕ)
    → y * w ≤ a
    → a < y * w + n * w
    → pull_rows n y w buf a ≡ buf (a + w)
unfolding pull_rows
pull_rows_in zero y w buf a lo hi = absurd (omega arith)
pull_rows_in (suc n) y w buf a lo hi =
    let row = pull_row w 0 (y * w) w buf in
    ground (
      arith,
      pull_rows_in n (y + 1) w row a,
      pull_rows_out n (y + 1) w row a,
      pull_row_in w 0 (y * w) w buf a,
      pull_row_out w 0 (y * w) w buf (a + w),
    )

last_row : (h w : ℕ) → 0 < h → h * w ≡ (h - 1) * w + w
last_row zero w p = absurd (omega arith)
last_row (suc h) w p = let e : suc h - 1 ≡ h = omega arith in rw e (omega arith)

-- terminal_scroll_down, on a screen with at least one row, gives every cell above the last row the
-- value of the cell below it, makes the last row blank in the current colours, changes no cell
-- beyond the screen, and puts the cursor in the last row at the column where it was.
pub terminal_scroll_down_lem :
    (s : Tty) (a : ℕ)
    → 0 < s.vga_height
    → let s' = terminal_scroll_down s in
      let last = (s.vga_height - 1) * s.vga_width in
      (a < last → s'.terminal_buffer a ≡ s.terminal_buffer (a + s.vga_width))
      × (last ≤ a → a < s.vga_height * s.vga_width → s'.terminal_buffer a ≡ blank s)
      × (s.vga_height * s.vga_width ≤ a → s'.terminal_buffer a ≡ s.terminal_buffer a)
      × (s'.terminal_row + 1 ≡ s.vga_height)
      × (s'.terminal_column ≡ s.terminal_column)
unfolding terminal_scroll_down
terminal_scroll_down_lem s a pos =
    let last = (s.vga_height - 1) * s.vga_width in
    let pulled = pull_rows (s.vga_height - 1) 0 s.vga_width s.terminal_buffer in
    let total : s.vga_height * s.vga_width ≡ last + s.vga_width =
      last_row s.vga_height s.vga_width pos in
    (
      (λ h.
          fill_cells_out s.vga_width 0 last (blank s) pulled a (inl (omega arith))
          ∙ pull_rows_in (s.vga_height - 1) 0 s.vga_width s.terminal_buffer a (omega arith)
              (omega arith)),
      (λ lo hi. fill_cells_in s.vga_width 0 last (blank s) pulled a (omega arith) (omega arith)),
      (λ h.
          fill_cells_out s.vga_width 0 last (blank s) pulled a (inr (omega arith))
          ∙ pull_rows_out (s.vga_height - 1) 0 s.vga_width s.terminal_buffer a (inr (omega arith))),
      omega arith,
      refl,
    )
