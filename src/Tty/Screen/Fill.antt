-- ===== src/Tty/Screen/Fill.antt =====
-- The fill loops: which cells are blank afterwards, and which are as before.
use blueberry_os.Base.{
  ℕ, zero, suc, ◌+◌, ◌*◌, ◌≤◌, ◌<◌, ◌≡◌, ◌≢◌, ◌⊎◌, inl, inr, refl, arith, ◌==◌, Bool-cases,
}
use blueberry_os.Tty.{Tty, Cells, default_blank, write_cell}
use blueberry_os.Tty.Screen.{fill_cells, clear_rows, terminal_clear}

pub write_cell_self : (buf : Cells) (p v : ℕ) → write_cell buf p v p ≡ v
unfolding write_cell
write_cell_self buf p v = ground arith

pub write_cell_ne : (buf : Cells) (p v a : ℕ) → a ≢ p → write_cell buf p v a ≡ buf a
unfolding write_cell
write_cell_ne buf p v a h = ground arith

-- Outside of the `n` cells from `p` on.
abbrev pub Beyond : ℕ → ℕ → ℕ → Type 0
Beyond a p n = (a < p) ⊎ (p + n ≤ a)

pub fill_cells_out :
    (n i index v : ℕ) (buf : Cells) (a : ℕ)
    → Beyond a (index + i) n
    → fill_cells n i index v buf a ≡ buf a
unfolding fill_cells
fill_cells_out zero i index v buf a h = refl
fill_cells_out (suc n) i index v buf a h = ground (
  arith,
  fill_cells_out n (i + 1) index v (write_cell buf (index + i) v) a,
  write_cell_ne buf (index + i) v a,
)

pub fill_cells_in :
    (n i index v : ℕ) (buf : Cells) (a : ℕ)
    → index + i ≤ a
    → a < index + i + n
    → fill_cells n i index v buf a ≡ v
unfolding fill_cells
fill_cells_in zero i index v buf a lo hi = absurd (omega arith)
fill_cells_in (suc n) i index v buf a lo hi = elim (Bool-cases (a == index + i)) [
  | inl e ↦ ground (
    arith,
    fill_cells_out n (i + 1) index v (write_cell buf (index + i) v) a,
    write_cell_self buf (index + i) v,
  )
  | inr ne ↦ ground (arith, fill_cells_in n (i + 1) index v (write_cell buf (index + i) v) a)
]

clear_rows_out :
    (n y w v : ℕ) (buf : Cells) (a : ℕ)
    → Beyond a (y * w) (n * w)
    → clear_rows n y w v buf a ≡ buf a
unfolding clear_rows
clear_rows_out zero y w v buf a h = refl
clear_rows_out (suc n) y w v buf a h =
    let rest = clear_rows_out n (y + 1) w v (fill_cells w 0 (y * w) v buf) a in
    let row = fill_cells_out w 0 (y * w) v buf a in ground (arith, rest, row)

clear_rows_in :
    (n y w v : ℕ) (buf : Cells) (a : ℕ)
    → y * w ≤ a
    → a < y * w + n * w
    → clear_rows n y w v buf a ≡ v
unfolding clear_rows
clear_rows_in zero y w v buf a lo hi = absurd (omega arith)
clear_rows_in (suc n) y w v buf a lo hi =
    let row = fill_cells w 0 (y * w) v buf in
    ground (
      arith,
      clear_rows_out n (y + 1) w v row a,
      clear_rows_in n (y + 1) w v row a,
      fill_cells_in w 0 (y * w) v buf a,
    )

-- terminal_clear makes every cell of the screen a blank in the default colours, and changes no cell
-- beyond the screen.
pub terminal_clear_lem :
    (s : Tty) (a : ℕ)
    → let buf = (terminal_clear s).terminal_buffer in
      (a < s.vga_width * s.vga_height → buf a ≡ default_blank)
      × (s.vga_width * s.vga_height ≤ a → buf a ≡ s.terminal_buffer a)
unfolding terminal_clear
terminal_clear_lem s a = (
  λ h.
      clear_rows_in s.vga_height 0 s.vga_width default_blank s.terminal_buffer a (omega arith)
        (omega arith),
  λ h.
      clear_rows_out s.vga_height 0 s.vga_width default_blank s.terminal_buffer a
        (inr (omega arith)),
)
