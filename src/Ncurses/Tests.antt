-- ===== src/Ncurses/Tests.antt =====
-- The theorems on windows, applied to windows of two rows.
use blueberry_os.Base.{◌*◌, ◌≡◌, refl, arith, false}
use blueberry_os.Ncurses.{Window, wputcharw}
use blueberry_os.Ncurses.Print.{IsWindow, Inside}
use blueberry_os.Ncurses.Inside.{wputcharw-Inside, wputcharw_tab}

abbrev blank : Window
blank = record {
  curx = 0;
  cury = 0;
  width = 8;
  height = 2;
  startx = 0;
  starty = 0;
  toclear = false;
  buf = λ i. b' ';
  lineschanged = λ y. 0;
  colors = λ i. 0;
  cur_color = 0;
}

blank-IsWindow : IsWindow blank
blank-IsWindow = record {
  some_width = omega arith;
  some_height = omega arith;
  cells = omega arith;
  column = omega arith;
  row = omega arith;
}

wputcharw_example : Inside blank (wputcharw blank b'\n')
wputcharw_example = wputcharw-Inside blank b'\n' blank-IsWindow (λ tab. refl)

-- Five columns, and the cursor in the last cell.
abbrev narrow : Window
narrow = record blank { width = 5; curx = 4; cury = 1; buf = λ i. 0 }

narrow-IsWindow : IsWindow narrow
narrow-IsWindow = record {
  some_width = omega arith;
  some_height = omega arith;
  cells = omega arith;
  column = omega arith;
  row = omega arith;
}

wputcharw_tab_example : (wputcharw narrow b'\t').buf (5 * 2) ≡ b' '
wputcharw_tab_example = wputcharw_tab narrow narrow-IsWindow refl refl refl
