-- ===== src/Tty/Escape/Moves.antt =====
-- The cursor moves of `\e[#D` and `\e[#C`, as moves of the cursor's position in reading order.
use Prim.Native.Nat.{min}
use blueberry_os.Base.{
  ℕ, zero, suc, ◌+◌, ◌-◌, ◌*◌, ◌≤◌, ◌<◌, ◌≡◌, ◌≢◌, inl, inr, refl, ◌∙◌, arith, ◌==◌, Bool-cases,
  ==→eq,
}
use blueberry_os.Tty.{Tty}
use blueberry_os.Tty.Escape.{move_left, move_right}

-- The cursor stands on the screen.
pub record OnScreen (s : Tty) : Type 0 where
  pub row_in : s.terminal_row < s.vga_height
  pub column_in : s.terminal_column < s.vga_width

abbrev pub position : Tty → ℕ
position s = s.terminal_row * s.vga_width + s.terminal_column

-- Nothing but the cursor differs.
pub record SameScreen (s t : Tty) : Type 0 where
  pub width : t.vga_width ≡ s.vga_width
  pub height : t.vga_height ≡ s.vga_height
  pub buffer : t.terminal_buffer ≡ s.terminal_buffer
  pub saved_screen : t.saved_screen ≡ s.saved_screen
  pub saved_row : t.saved_row ≡ s.saved_row
  pub saved_column : t.saved_column ≡ s.saved_column

-- What a move of the cursor to position `p` leaves.
pub record MovedTo (s t : Tty) (p : ℕ) : Type 0 where
  pub screen : SameScreen s t
  pub on : OnScreen t
  pub at : position t ≡ p

-- A move from `b`, which differs from `s` at most in the cursor, is a move from `s`.
moved_on :
    {s t : Tty} {p : ℕ} (b : Tty) (q : ℕ) → SameScreen s b → p ≡ q → MovedTo b t p → MovedTo s t q
moved_on b q same e m = record {
  screen = record {
    width = m.screen.width ∙ same.width;
    height = m.screen.height ∙ same.height;
    buffer = m.screen.buffer ∙ same.buffer;
    saved_screen = m.screen.saved_screen ∙ same.saved_screen;
    saved_row = m.screen.saved_row ∙ same.saved_row;
    saved_column = m.screen.saved_column ∙ same.saved_column;
  };
  on = m.on;
  at = m.at ∙ e;
}

cursor_only :
    (s : Tty) (r c : ℕ) → SameScreen s (record s { terminal_row = r; terminal_column = c })
cursor_only s r c = record {
  width = refl;
  height = refl;
  buffer = refl;
  saved_screen = refl;
  saved_row = refl;
  saved_column = refl;
}

SameScreen-refl : (s : Tty) → SameScreen s s
SameScreen-refl s = cursor_only s s.terminal_row s.terminal_column

row_above : (r w : ℕ) → r ≢ 0 → 0 < w → (r - 1) * w + (w - 1) + 1 ≡ r * w
row_above zero w n p = absurd (n refl)
row_above (suc r) w n p = let e : suc r - 1 ≡ r = omega arith in rw e (omega arith)

-- `\e[#D`, from a cursor on the screen, moves it back by the given number of positions in reading
-- order, and at most to the upper left corner; the cells stay as they are.
pub move_left-MovedTo : (n : ℕ) (s : Tty) → OnScreen s → MovedTo s (move_left n s) (position s - n)
unfolding move_left
move_left-MovedTo zero s on = record { screen = SameScreen-refl s; on = on; at = omega arith }
move_left-MovedTo (suc n) s on = elim (Bool-cases (s.terminal_column == 0)) [
  | inl c ↦ elim (Bool-cases (s.terminal_row == 0)) [
    | inl r ↦
        rw (c, r)
          (record {
            screen = SameScreen-refl s;
            on = on;
            at = ground (arith, ==→eq s.terminal_row 0 r, ==→eq s.terminal_column 0 c);
          })
    | inr r ↦
        let back : Tty = record s {
          terminal_column = s.vga_width - 1;
          terminal_row = s.terminal_row - 1;
        } in
        rw (c, r)
          (moved_on back (position s - suc n) (cursor_only s back.terminal_row back.terminal_column)
            (ground (arith, row_above s.terminal_row s.vga_width, ==→eq s.terminal_column 0 c))
            (move_left-MovedTo n back (ground arith)))
  ]
  | inr c ↦
      let back : Tty = record s { terminal_column = s.terminal_column - 1 } in
      rw c (
        moved_on back (position s - suc n) (cursor_only s back.terminal_row back.terminal_column)
          (ground arith) (move_left-MovedTo n back (ground arith)))
]

-- The last position of the screen.
abbrev pub last_position : Tty → ℕ
last_position s = s.vga_height * s.vga_width - 1

corner : (r h w : ℕ) → r ≡ h - 1 → 0 < h → 0 < w → r * w + (w - 1) ≡ h * w - 1
corner r zero w e p q = absurd (omega arith)
corner r (suc h) w e p q = let e' : r ≡ h = omega arith in rw e' (omega arith)

row_below : (r h w : ℕ) → r < h → r * w + w ≤ h * w
row_below r h w p = grind arith

-- `\e[#C`, from a cursor on the screen, moves it on by the given number of positions in reading
-- order, and at most to the lower right corner; the cells stay as they are.
pub move_right-MovedTo :
    (n : ℕ) (s : Tty)
    → OnScreen s
    → MovedTo s (move_right n s) (min (position s + n) (last_position s))
unfolding move_right
move_right-MovedTo zero s on = record {
  screen = SameScreen-refl s;
  on = on;
  at = omega (arith, row_below s.terminal_row s.vga_height s.vga_width on.row_in);
}
move_right-MovedTo (suc n) s on = elim (Bool-cases (s.terminal_column == s.vga_width - 1)) [
  | inl c ↦ elim (Bool-cases (s.terminal_row == s.vga_height - 1)) [
    | inl r ↦
        rw (c, r)
          (record {
            screen = SameScreen-refl s;
            on = on;
            at = omega (
              arith,
              corner s.terminal_row s.vga_height s.vga_width (==→eq _ _ r) (omega arith)
                  (omega arith),
              ==→eq _ _ c,
            );
          })
    | inr r ↦
        let next : Tty = record s { terminal_column = 0; terminal_row = s.terminal_row + 1 } in
        rw (c, r)
          (moved_on next (min (position s + suc n) (last_position s))
            (cursor_only s next.terminal_row next.terminal_column) (omega (arith, ==→eq _ _ c))
            (move_right-MovedTo n next (ground arith)))
  ]
  | inr c ↦
      let next : Tty = record s { terminal_column = s.terminal_column + 1 } in
      rw c (
        moved_on next (min (position s + suc n) (last_position s))
          (cursor_only s next.terminal_row next.terminal_column) (omega arith)
          (move_right-MovedTo n next (ground arith)))
]
