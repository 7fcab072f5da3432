-- ===== src/Ncurses.antt =====
-- ncurses/ncurses: the windows. A window is looked up by its address, and so is `stdscr`; its three
-- buffers are functions of an index. What is sent to the terminal is a log, the newest entry last.
-- ttycmd is taken to succeed.
pub mod Print
pub mod Inside
mod Tests
use blueberry_os.Base.{
  ℕ, zero, suc, ◌+◌, ◌-◌, ◌*◌, ◌%◌, ◌^◌, ◌==◌, Bool, true, false, not, ◌&&◌, leb, ltb,
  if◌then◌else◌, List, [], ◌∷◌, ◌++◌, replicate, u32, add32, sub32,
}

pub record Window : Type 0 where
  pub curx : ℕ
  pub cury : ℕ
  pub width : ℕ
  pub height : ℕ
  pub startx : ℕ
  pub starty : ℕ
  pub toclear : Bool
  pub buf : ℕ → ℕ
  pub lineschanged : ℕ → ℕ
  pub colors : ℕ → ℕ
  pub cur_color : ℕ

-- A call of ttycmd with its arguments, or a text that printf writes.
pub data Sent : Type 0 where
  command : ℕ → List ℕ → Sent
  text : List ℕ → Sent

pub record Curses : Type 0 where
  pub windows : ℕ → Window
  pub stdscr : ℕ
  pub sent : List Sent

abbrev pub tty_move_cursor : ℕ
tty_move_cursor = 7

abbrev pub tty_delete_characters : ℕ
tty_delete_characters = 11

abbrev pub set_range : (ℕ → ℕ) → ℕ → ℕ → ℕ → ℕ → ℕ
set_range bytes i n v k = if leb i k && ltb k (i + n) then v else bytes k

abbrev pub set_byte : (ℕ → ℕ) → ℕ → ℕ → ℕ → ℕ
set_byte bytes i v k = if k == i then v else bytes k

abbrev pub put_window : Curses → ℕ → Window → Curses
put_window c p w = record c { windows = λ q. if q == p then w else c.windows q }

abbrev pub send : Curses → Sent → Curses
send c s = record c { sent = c.sent ++ s ∷ [] }

-- The new window is at the address `p` that malloc gave. `before` is what stood there: `cury` is not
-- set, since `curx` is set twice.
unfoldable pub newwin : Curses → ℕ → Window → ℕ → ℕ → ℕ → ℕ → Curses
newwin c p before height width starty startx = put_window c p (record {
  curx = 0;
  cury = before.cury;
  width = width;
  height = height;
  startx = startx;
  starty = starty;
  toclear = false;
  buf = set_range before.buf 0 (u32 (width * height)) b' ';
  lineschanged = set_range before.lineschanged 0 height 0;
  colors = set_range before.colors 0 (u32 (width * height)) 0;
  cur_color = 0;
})

-- The cursor before a character is placed: a line feed, the end of the row, the last row.
unfoldable pub line_feed : Window → ℕ → Window
line_feed w c = if c == b'\n' then record w { cury = add32 w.cury 1; curx = 0 } else w

unfoldable pub wrap : Window → Window
wrap w = if leb w.width w.curx then record w { curx = 0; cury = add32 w.cury 1 } else w

unfoldable pub clamp : Window → Window
clamp w = if leb w.height w.cury then record w { cury = sub32 w.height 1 } else w

abbrev pub cell : Window → ℕ
cell w = u32 (w.cury * w.width + w.curx)

unfoldable pub place_tab : Window → Window
place_tab w =
    let size = 4 - w.curx % 4 in
    record w {
      buf = set_range w.buf (cell w) size b' ';
      colors = set_range w.colors (cell w) size w.cur_color;
      curx = add32 w.curx size;
      lineschanged = set_byte w.lineschanged w.cury 1;
    }

unfoldable pub place_char : Window → ℕ → Window
place_char w c = record w {
  buf = set_byte w.buf (cell w) c;
  colors = set_byte w.colors (cell w) w.cur_color;
  curx = add32 w.curx 1;
  lineschanged = set_byte w.lineschanged w.cury 1;
}

unfoldable pub wputcharw : Window → ℕ → Window
wputcharw w c =
    let w' = clamp (wrap (line_feed w c)) in
    if c == b'\n' then w' else if c == b'\t' then place_tab w' else place_char w' c

-- wputcharw always returns true, so `prints` goes to the end of the text.
unfoldable pub prints : Window → List ℕ → Window
prints w [] = w
prints w (c ∷ str) = prints (wputcharw w c) str

unfoldable pub wattron : Window → ℕ → Window
wattron w attrs = if attrs % 256 == 0 then w else record w { cur_color = attrs % 256 }

unfoldable pub wattroff : Window → ℕ → Window
wattroff w attrs = if attrs % 256 == 0 then w else record w { cur_color = 0 }

unfoldable pub werase : Window → Window
werase w = record w {
  buf = set_range w.buf 0 (u32 (w.width * w.height)) b' ';
  lineschanged = set_range w.lineschanged 0 w.height 1;
}

-- `color_pairs`, the foreground and the background.
unfoldable pub init_pair : (ℕ → ℕ × ℕ) → ℕ → ℕ → ℕ → ℕ → ℕ × ℕ
init_pair color_pairs pair f b i = if i == pair % 256 then (f % 256, b % 256) else color_pairs i

unfoldable pub move : Curses → ℕ → ℕ → Curses
move c y x =
    send (put_window c c.stdscr (record (c.windows c.stdscr) { curx = x; cury = y }))
      (command tty_move_cursor (y ∷ x ∷ []))

unfoldable pub wmove : Curses → ℕ → ℕ → ℕ → Curses
wmove c p y x =
    let w = c.windows p in
    send (put_window c p (record w { curx = x; cury = y }))
      (command tty_move_cursor (add32 y w.starty ∷ add32 x w.startx ∷ []))

-- The cursor of `stdscr` moves to the position in the window.
unfoldable pub wclrtoeol : Curses → ℕ → Curses
wclrtoeol c p =
    let w = c.windows p in
    let n = sub32 w.width w.curx in
    move
      (put_window c p (record w {
        buf = set_range w.buf (cell w) n b' ';
        colors = set_range w.colors (cell w) n w.cur_color;
        lineschanged = set_byte w.lineschanged w.cury 1;
      }))
      w.cury w.curx

unfoldable pub wdelch : Curses → ℕ → Curses
wdelch c p =
    let w = c.windows p in
    send (move c (add32 w.starty w.cury) (add32 w.startx w.curx))
      (command tty_delete_characters (1 ∷ sub32 w.width w.cury ∷ []))

-- `for (x = ...; x < width; x++) buf[index + x] = buf[index + x + 1];` with `n` rounds left.
unfoldable pub pull_left : ℕ → ℕ → ℕ → (ℕ → ℕ) → ℕ → ℕ
pull_left zero index x buf = buf
pull_left (suc n) index x buf =
    pull_left n index (x + 1) (set_byte buf (index + x) (buf (index + x + 1)))

-- The index of the row is a multiple of the height.
unfoldable pub delch : Curses → Curses
delch c =
    let w = c.windows c.stdscr in
    let moved = move c (add32 w.starty w.cury) (add32 w.startx w.curx) in
    let v = moved.windows c.stdscr in
    put_window moved c.stdscr
      (record v { buf = pull_left (v.width - v.curx) (u32 (v.cury * v.height)) v.curx v.buf })
