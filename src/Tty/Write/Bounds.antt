-- ===== src/Tty/Write/Bounds.antt =====
-- When a terminal is valid, and what a step from a valid terminal keeps.
use blueberry_os.Base.{
  ℕ, zero, suc, ◌+◌, ◌*◌, ◌%◌, ◌^◌, ◌≤◌, ◌<◌, ◌≡◌, inl, inr, refl, ◌∙◌, arith, Bool-cases, Option,
  none, some, leb,
}
use blueberry_os.Tty.{Tty, Cells, cursor_index}
use blueberry_os.Tty.Screen.{terminal_scroll_down}
use blueberry_os.Tty.Screen.Scroll.{terminal_scroll_down_lem}
use blueberry_os.Tty.Escape.Moves.{OnScreen}
use blueberry_os.Tty.Write.{scroll_if_below}

-- Where a screen has been saved, its cursor stood on the screen.
abbrev pub SavedIn : Option Cells → (row column height width : ℕ) → Type 0
SavedIn none row column height width = Unit {0}
SavedIn (some screen) row column height width = (row < height) × (column < width)

abbrev pub SavedInside : Tty → Type 0
SavedInside s = SavedIn s.saved_screen s.saved_row s.saved_column s.vga_height s.vga_width

-- A screen whose cell numbers are 32-bit numbers, with the cursor on it.
pub record IsValid (s : Tty) : Type 0 where
  pub on : OnScreen s
  pub size : s.vga_height * s.vga_width < 2 ^ 32
  -- a tab fills whole groups of four cells
  pub groups : s.vga_height * s.vga_width % 4 ≡ 0
  pub saved : SavedInside s

-- The screen has the same size, and no cell beyond it has changed.
pub record Within (s t : Tty) : Type 0 where
  pub width : t.vga_width ≡ s.vga_width
  pub height : t.vga_height ≡ s.vga_height
  pub beyond : (a : ℕ) → s.vga_height * s.vga_width ≤ a → t.terminal_buffer a ≡ s.terminal_buffer a

-- The outcome of a step from `s`.
pub record Kept (s t : Tty) : Type 0 where
  pub valid : IsValid t
  pub within : Within s t

pub Within-refl : (s : Tty) → Within s s
Within-refl s = record { width = refl; height = refl; beyond = λ a h. refl }

pub Kept-refl : (s : Tty) → IsValid s → Kept s s
Kept-refl s v = record { valid = v; within = Within-refl s }

pub Kept-trans : (s t u : Tty) → Within s t → Kept t u → Kept s u
Kept-trans s t u w k = record {
  valid = k.valid;
  within = record {
    width = k.within.width ∙ w.width;
    height = k.within.height ∙ w.height;
    beyond = λ a h. k.within.beyond a (rw (w.width, w.height) h) ∙ w.beyond a h;
  };
}

index_lt : (r c h w : ℕ) → r < h → c < w → r * w + c < h * w
index_lt r c h w p q = grind arith

-- The cursor's cell lies on the screen, and its number does not wrap.
pub cursor_index-lt : (s : Tty) → IsValid s → cursor_index s < s.vga_height * s.vga_width
cursor_index-lt s v =
    let lt =
      index_lt s.terminal_row s.terminal_column s.vga_height s.vga_width v.on.row_in
        v.on.column_in in
    let size = v.size in omega arith

le_mul : (h w : ℕ) → 0 < w → (h ≤ h * w) × (h ≤ w * h)
le_mul h zero p = absurd (omega arith)
le_mul h (suc w) p = omega arith

-- The dimensions of a valid screen are 32-bit numbers.
pub dims_lt : (s : Tty) → IsValid s → (s.vga_height < 2 ^ 32) × (s.vga_width < 2 ^ 32)
dims_lt s v =
    let size = v.size in
    let row = v.on.row_in in
    let column = v.on.column_in in
    omega (arith, le_mul s.vga_height s.vga_width, le_mul s.vga_width s.vga_height)

-- A valid screen, but for the cursor, which may stand in the row below the last.
pub record Almost (s : Tty) : Type 0 where
  pub rows : 0 < s.vga_height
  pub row_in : s.terminal_row ≤ s.vga_height
  pub column_in : s.terminal_column < s.vga_width
  pub size : s.vga_height * s.vga_width < 2 ^ 32
  pub groups : s.vga_height * s.vga_width % 4 ≡ 0
  pub saved : SavedInside s

scroll_down-Kept : (s : Tty) → Almost s → Kept s (terminal_scroll_down s)
unfolding terminal_scroll_down
scroll_down-Kept s v =
    let lem = λ (a : ℕ). terminal_scroll_down_lem s a v.rows in
    record {
      valid = record {
        on = record { row_in = omega (arith, (lem 0).3); column_in = v.column_in };
        size = v.size;
        groups = v.groups;
        saved = v.saved;
      };
      within = record { width = refl; height = refl; beyond = λ a h. (lem a).2 h };
    }

pub scroll_if_below-Kept : (s : Tty) → Almost s → Kept s (scroll_if_below s)
unfolding scroll_if_below
scroll_if_below-Kept s v = elim (Bool-cases (leb s.vga_height s.terminal_row)) [
  | inl below ↦ rw below (scroll_down-Kept s v)
  | inr above ↦ rw above (
      Kept-refl s (record {
        on = record { row_in = ground arith; column_in = v.column_in };
        size = v.size;
        groups = v.groups;
        saved = v.saved;
      }))
]
