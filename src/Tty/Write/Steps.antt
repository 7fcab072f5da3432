-- ===== src/Tty/Write/Steps.antt =====
-- The steps of terminal_writechar outside of an escape sequence stay on the screen.
use blueberry_os.Base.{
  ℕ, zero, suc, ◌+◌, ◌-◌, ◌*◌, ◌%◌, ◌≤◌, ◌<◌, refl, arith, Bool-cases, inl, inr, Bool, true, false,
  leb, add32,
}
use blueberry_os.Tty.{Tty, cursor_index, vga_entry, vga_color, write_cell}
use blueberry_os.Tty.Screen.Fill.{write_cell_ne}
use blueberry_os.Tty.Write.{
  scroll_if_below, advance, update_cursor, put_char, tab_loop, write_tab, newline, begin_escape,
}
use blueberry_os.Tty.Write.Bounds.{
  IsValid, Within, Kept, Kept-refl, Kept-trans, cursor_index-lt, dims_lt, Almost,
  scroll_if_below-Kept,
}

-- Moving the cursor touches no cell.
moved : (s : Tty) (r c : ℕ) → Within s (record s { terminal_row = r; terminal_column = c })
moved s r c = record { width = refl; height = refl; beyond = λ a h. refl }

below :
    (s : Tty)
    → IsValid s
    → Almost (record s { terminal_column = 0; terminal_row = add32 s.terminal_row 1 })
below s v =
    let dims = dims_lt s v in
    record {
      rows = omega (arith, v.on.row_in);
      row_in = omega (arith, v.on.row_in);
      column_in = omega (arith, v.on.column_in);
      size = v.size;
      groups = v.groups;
      saved = v.saved;
    }

pub newline-Kept : (s : Tty) → IsValid s → Kept s (newline s)
unfolding newline
newline-Kept s v =
    let b : Tty = record s { terminal_column = 0; terminal_row = add32 s.terminal_row 1 } in
    Kept-trans s b (scroll_if_below b) (moved s (add32 s.terminal_row 1) 0)
      (scroll_if_below-Kept b (below s v))

pub advance-Kept : (s : Tty) → IsValid s → Kept s (advance s)
unfolding advance
advance-Kept s v = elim (Bool-cases (leb s.vga_width (add32 s.terminal_column 1))) [
  | inl edge ↦
      let b : Tty = record s { terminal_column = 0; terminal_row = add32 s.terminal_row 1 } in
      rw edge (
        Kept-trans s b (scroll_if_below b) (moved s (add32 s.terminal_row 1) 0)
          (scroll_if_below-Kept b (below s v)))
  | inr inside ↦
      let dims = dims_lt s v in
      rw inside (record {
        valid = record {
          on = record { row_in = v.on.row_in; column_in = ground arith };
          size = v.size;
          groups = v.groups;
          saved = v.saved;
        };
        within = moved s s.terminal_row (add32 s.terminal_column 1);
      })
]

pub put_char-Kept :
    (index c : ℕ) (s : Tty)
    → IsValid s
    → index < s.vga_height * s.vga_width
    → Kept s (put_char index c s)
unfolding put_char
put_char-Kept index c s v lt =
    let entry = vga_entry c (vga_color s.terminal_fg s.terminal_bg) in
    let b : Tty = record s { terminal_buffer = write_cell s.terminal_buffer index entry } in
    let wrote : Within s b = record {
      width = refl;
      height = refl;
      beyond = λ a h. write_cell_ne s.terminal_buffer index entry a (omega arith);
    } in
    Kept-trans s b (advance b) wrote (
      advance-Kept b (record {
        on = record { row_in = v.on.row_in; column_in = v.on.column_in };
        size = v.size;
        groups = v.groups;
        saved = v.saved;
      }))

tab_loop-Kept :
    (n i index : ℕ) (s : Tty)
    → IsValid s
    → index + i + n ≤ s.vga_height * s.vga_width
    → Kept s (tab_loop n i index s)
unfolding tab_loop
tab_loop-Kept zero i index s v le = Kept-refl s v
tab_loop-Kept (suc n) i index s v le =
    let one = put_char-Kept (index + i) b' ' s v (omega arith) in
    let next = put_char (index + i) b' ' s in
    Kept-trans s next (tab_loop n (i + 1) index next) one.within (
      tab_loop-Kept n (i + 1) index next one.valid
        (rw (one.within.width, one.within.height) (omega arith)))

pub write_tab-Kept : (s : Tty) → IsValid s → Kept s (write_tab (cursor_index s) s)
unfolding write_tab
write_tab-Kept s v =
    let lt = cursor_index-lt s v in
    let groups = v.groups in
    let index = cursor_index s in tab_loop-Kept (4 - index % 4) 0 index s v (omega arith)

pub update_cursor-Kept : (update : Bool) (s t : Tty) → Kept s t → Kept s (update_cursor update t)
unfolding update_cursor
update_cursor-Kept true s t k = record {
  valid = record {
    on = record { row_in = k.valid.on.row_in; column_in = k.valid.on.column_in };
    size = k.valid.size;
    groups = k.valid.groups;
    saved = k.valid.saved;
  };
  within = record { width = k.within.width; height = k.within.height; beyond = k.within.beyond };
}
update_cursor-Kept false s t k = k

pub begin_escape-Kept : (s : Tty) → IsValid s → Kept s (begin_escape s)
unfolding begin_escape
begin_escape-Kept s v = record {
  valid = record {
    on = record { row_in = v.on.row_in; column_in = v.on.column_in };
    size = v.size;
    groups = v.groups;
    saved = v.saved;
  };
  within = record { width = refl; height = refl; beyond = λ a h. refl };
}
