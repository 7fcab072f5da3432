-- ===== src/Ncurses/Print.antt =====
-- wputcharw: where it writes, and where it leaves the cursor.
use blueberry_os.Base.{
  ℕ, ◌+◌, ◌*◌, ◌^◌, ◌==◌, ◌≡◌, ◌≤◌, ◌<◌, refl, arith, leb, inl, inr, Bool-cases,
}
use native.Mathlib.Nat.{mul-le-mul_right, mul_comm, add-mul}
use blueberry_os.Ncurses.{Window, line_feed, wrap, clamp}

-- The cursor is in a row of the window and at its end at most, and the cells fit into a word.
pub record IsWindow (w : Window) : Type 0 where
  pub some_width : 0 < w.width
  pub some_height : 0 < w.height
  pub cells : w.width * w.height < 2 ^ 31
  pub column : w.curx ≤ w.width
  pub row : w.cury < w.height

-- The window has its size, and the bytes behind its cells are as before.
pub record Inside (w w' : Window) : Type 0 where
  pub window : IsWindow w'
  pub same_width : w'.width ≡ w.width
  pub same_height : w'.height ≡ w.height
  pub buf : (k : ℕ) → w.width * w.height ≤ k → w'.buf k ≡ w.buf k
  pub colors : (k : ℕ) → w.width * w.height ≤ k → w'.colors k ≡ w.colors k

-- A cursor on the screen has its cell in the window.
pub cell_below :
    (width height curx cury : ℕ)
    → curx < width
    → cury < height
    → cury * width + curx < width * height
cell_below width height curx cury hx hy =
    let below : cury + 1 ≤ height = omega arith in
    let rows : (cury + 1) * width ≤ height * width = mul-le-mul_right width below in
    omega (arith, rows, mul_comm height width, add-mul cury 1 width)

pub height_below : (w : Window) → IsWindow w → w.height < 2 ^ 31
height_below w good =
    let one : 1 ≤ w.width = good.some_width in
    let rows : 1 * w.height ≤ w.width * w.height = mul-le-mul_right w.height one in
    let cells = good.cells in omega (arith, rows, cells)

-- The cursor alone has moved, to a row that may be some rows too low.
pub record Moved (w : Window) (rows : ℕ) (w' : Window) : Type 0 where
  pub same_width : w'.width ≡ w.width
  pub same_height : w'.height ≡ w.height
  pub same_buf : w'.buf ≡ w.buf
  pub same_colors : w'.colors ≡ w.colors
  pub row : w'.cury < w.height + rows
  pub column : w'.curx ≤ w.width

pub line_feed-Moved : (w : Window) (c : ℕ) → IsWindow w → Moved w 1 (line_feed w c)
unfolding line_feed
line_feed-Moved w c good =
    let low = height_below w good in
    let row = good.row in
    let column = good.column in
    elim (Bool-cases (c == b'\n')) [
      | inl feed ↦ rw feed (record {
        same_width = refl;
        same_height = refl;
        same_buf = refl;
        same_colors = refl;
        row = omega arith;
        column = omega arith;
      })
      | inr other ↦ rw other (record {
        same_width = refl;
        same_height = refl;
        same_buf = refl;
        same_colors = refl;
        row = omega arith;
        column = column;
      })
    ]

pub wrap-Moved :
    (w v : Window) → IsWindow w → Moved w 1 v → Moved w 2 (wrap v) × ((wrap v).curx < w.width)
unfolding wrap
wrap-Moved w v good m =
    let low = height_below w good in
    let some_width = good.some_width in
    let same_width = m.same_width in
    let row = m.row in
    elim (Bool-cases (leb v.width v.curx)) [
      | inl ends ↦ rw ends (
        record {
          same_width = m.same_width;
          same_height = m.same_height;
          same_buf = m.same_buf;
          same_colors = m.same_colors;
          row = omega arith;
          column = omega arith;
        },
        some_width,
      )
      | inr inside ↦ rw inside (
        record {
          same_width = m.same_width;
          same_height = m.same_height;
          same_buf = m.same_buf;
          same_colors = m.same_colors;
          row = omega arith;
          column = m.column;
        },
        ground arith,
      )
    ]

pub clamp-Moved :
    (w v : Window)
    → IsWindow w
    → Moved w 2 v
    → v.curx < w.width
    → Moved w 0 (clamp v) × ((clamp v).curx < w.width)
unfolding clamp
clamp-Moved w v good m inside =
    let low = height_below w good in
    let some_height = good.some_height in
    let same_height = m.same_height in
    elim (Bool-cases (leb v.height v.cury)) [
      | inl below ↦ rw below (
        record {
          same_width = m.same_width;
          same_height = m.same_height;
          same_buf = m.same_buf;
          same_colors = m.same_colors;
          row = omega arith;
          column = m.column;
        },
        inside,
      )
      | inr within ↦ rw within (
        record {
          same_width = m.same_width;
          same_height = m.same_height;
          same_buf = m.same_buf;
          same_colors = m.same_colors;
          row = ground arith;
          column = m.column;
        },
        inside,
      )
    ]
