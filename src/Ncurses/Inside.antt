-- ===== src/Ncurses/Inside.antt =====
-- wputcharw and prints write into the cells of the window alone.
use blueberry_os.Base.{
  ℕ, ◌+◌, ◌-◌, ◌*◌, ◌%◌, ◌^◌, ◌==◌, ◌≡◌, ◌≤◌, ◌<◌, refl, arith, true, false, ◌&&◌, leb, ltb, List,
  [], ◌∷◌, inl, inr, Bool-cases, sym, ◌∙◌, ap,
}
use native.Mathlib.Nat.{mul-le-mul_left, mul_comm, add-mul}
use blueberry_os.Ncurses.{
  Window, line_feed, wrap, clamp, cell, place_tab, place_char, wputcharw, prints,
}
use blueberry_os.Ncurses.Print.{
  IsWindow, Inside, Moved, cell_below, line_feed-Moved, wrap-Moved, clamp-Moved,
}

width_below : (w : Window) → IsWindow w → w.width < 2 ^ 31
width_below w good =
    let one : 1 ≤ w.height = good.some_height in
    let columns : w.width * 1 ≤ w.width * w.height = mul-le-mul_left w.width one in
    let cells = good.cells in omega (arith, columns, cells)

module _ (w v : Window) (good : IsWindow w) (m : Moved w 0 v) (inside : v.curx < w.width) where
  -- The cursor is on the screen, and so is its cell.
  cell_lem : (cell v ≡ v.cury * w.width + v.curx) × (cell v < w.width * w.height)
  cell_lem =
      let row : v.cury < w.height = let r = m.row in omega arith in
      let below = cell_below w.width w.height v.curx v.cury inside row in
      let cells = good.cells in
      let same : v.cury * v.width ≡ v.cury * w.width = ap (λ x. v.cury * x) m.same_width in
      rw same (omega arith, omega arith)

  place_char-Inside : (c : ℕ) → Inside w (place_char v c)
  unfolding place_char
  place_char-Inside c =
      let low = width_below w good in
      let below = cell_lem.1 in
      let row = m.row in
      record {
        window = record {
          some_width = rw (m.same_width) good.some_width;
          some_height = rw (m.same_height) good.some_height;
          cells = rw (m.same_width, m.same_height) good.cells;
          column = rw (m.same_width) (omega arith);
          row = rw (m.same_height) (omega arith);
        };
        same_width = m.same_width;
        same_height = m.same_height;
        buf = λ k h.
            let other : (k == cell v) ≡ false = ground (arith, below, h) in
            rw other (ap (λ b. b k) m.same_buf);
        colors = λ k h.
            let other : (k == cell v) ≡ false = ground (arith, below, h) in
            rw other (ap (λ b. b k) m.same_colors);
      }

  place_tab-Inside : w.width % 4 ≡ 0 → Inside w (place_tab v)
  unfolding place_tab
  place_tab-Inside stops =
      let low = width_below w good in
      let size = 4 - v.curx % 4 in
      let row : v.cury < w.height = let r = m.row in omega arith in
      let reach : v.curx + (size - 1) < w.width = omega arith in
      let last = cell_below w.width w.height (v.curx + (size - 1)) v.cury reach row in
      let at_cell = cell_lem.0 in
      let below : cell v + size ≤ w.width * w.height = omega (arith, last, at_cell) in
      record {
        window = record {
          some_width = rw (m.same_width) good.some_width;
          some_height = rw (m.same_height) good.some_height;
          cells = rw (m.same_width, m.same_height) good.cells;
          column = rw (m.same_width) (omega arith);
          row = rw (m.same_height) row;
        };
        same_width = m.same_width;
        same_height = m.same_height;
        buf = λ k h.
            let other : (leb (cell v) k && ltb k (cell v + size)) ≡ false =
              ground (arith, below, h) in
            rw other (ap (λ b. b k) m.same_buf);
        colors = λ k h.
            let other : (leb (cell v) k && ltb k (cell v + size)) ≡ false =
              ground (arith, below, h) in
            rw other (ap (λ b. b k) m.same_colors);
      }

Moved-Inside : (w v : Window) → IsWindow w → Moved w 0 v → Inside w v
Moved-Inside w v good m =
    let row = m.row in
    record {
      window = record {
        some_width = rw (m.same_width) good.some_width;
        some_height = rw (m.same_height) good.some_height;
        cells = rw (m.same_width, m.same_height) good.cells;
        column = rw (m.same_width) m.column;
        row = rw (m.same_height) (omega arith);
      };
      same_width = m.same_width;
      same_height = m.same_height;
      buf = λ k h. ap (λ b. b k) m.same_buf;
      colors = λ k h. ap (λ b. b k) m.same_colors;
    }

-- wputcharw of any character, in a window of less than 2 ^ 31 cells whose cursor is in one of its rows
-- and at most at the end of it; a tab only where the width is a multiple of 4: the cursor is in such a
-- place again, the window has its size, and no byte behind its cells has changed.
pub wputcharw-Inside :
    (w : Window) (c : ℕ)
    → IsWindow w
    → ((c == b'\t') ≡ true → w.width % 4 ≡ 0)
    → Inside w (wputcharw w c)
unfolding wputcharw
wputcharw-Inside w c good stops =
    let fed = line_feed w c in
    let (wrapped, column) = wrap-Moved w fed good (line_feed-Moved w c good) in
    let (m, inside) = clamp-Moved w (wrap fed) good wrapped column in
    let v = clamp (wrap fed) in
    elim (Bool-cases (c == b'\n')) [
      | inl feed ↦ rw feed (Moved-Inside w v good m)
      | inr plain ↦ elim (Bool-cases (c == b'\t')) [
        | inl tab ↦ rw (plain, tab) (place_tab-Inside w v good m inside (stops tab))
        | inr other ↦ rw (plain, other) (place_char-Inside w v good m inside c)
      ]
    ]

-- prints of any text, in a window whose width is a multiple of 4: it ends with the cursor in the
-- window, and no byte behind the cells of the window has changed.
pub prints-Inside :
    (str : List ℕ) (w : Window) → IsWindow w → w.width % 4 ≡ 0 → Inside w (prints w str)
unfolding prints
prints-Inside [] w good stops = record {
  window = good;
  same_width = refl;
  same_height = refl;
  buf = λ k h. refl;
  colors = λ k h. refl;
}
prints-Inside (c ∷ str) w good stops =
    let one = wputcharw-Inside w c good (λ tab. stops) in
    let w' = wputcharw w c in
    let others = prints-Inside str w' one.window (rw (one.same_width) stops) in
    let size : w'.width * w'.height ≡ w.width * w.height =
      rw (one.same_width, one.same_height) refl in
    record {
      window = others.window;
      same_width = others.same_width ∙ one.same_width;
      same_height = others.same_height ∙ one.same_height;
      buf = λ k h. others.buf k (rw size h) ∙ one.buf k h;
      colors = λ k h. others.colors k (rw size h) ∙ one.colors k h;
    }

-- A tab in the last column of the last row, where the width leaves a remainder of 1 by 4: wputcharw
-- writes blanks behind the cells of the window.
pub wputcharw_tab :
    (w : Window)
    → IsWindow w
    → w.width % 4 ≡ 1
    → w.curx + 1 ≡ w.width
    → w.cury + 1 ≡ w.height
    → (wputcharw w b'\t').buf (w.width * w.height) ≡ b' '
unfolding wputcharw line_feed wrap clamp place_tab
wputcharw_tab w good stops column row =
    let inside : leb w.width w.curx ≡ false = ground arith in
    let within : leb w.height w.cury ≡ false = ground arith in
    let cells = good.cells in
    let rows : w.width * w.height ≡ w.cury * w.width + w.width =
      ap (λ x. w.width * x) (sym row)
      ∙ mul_comm w.width (w.cury + 1)
      ∙ add-mul w.cury 1 w.width
      ∙ omega arith in
    let first : leb (cell w) (w.width * w.height) ≡ true = ground (arith, rows) in
    let reached : ltb (w.width * w.height) (cell w + (4 - w.curx % 4)) ≡ true =
      ground (arith, rows) in
    rw (inside, within, first, reached) refl
