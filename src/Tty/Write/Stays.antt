-- ===== src/Tty/Write/Stays.antt =====
-- terminal_writechar keeps a valid terminal valid, a backspace at column 0 apart.
use mathlib.Core.Option
use blueberry_os.Base.{
  ℕ, ◌≢◌, ◌⊎◌, refl, arith, Bool-cases, inl, inr, Bool, false, ◌==◌, sub32, Option, none, some,
  List, [], ◌∷◌,
}
use blueberry_os.Tty.{Tty, cursor_index}
use blueberry_os.Tty.Write.{put_char, write_tab, newline, terminal_writechar, write_chars}
use blueberry_os.Tty.Write.Bounds.{IsValid, Kept, Kept-refl, cursor_index-lt, dims_lt}
use blueberry_os.Tty.Write.Steps.{
  newline-Kept, put_char-Kept, write_tab-Kept, update_cursor-Kept, begin_escape-Kept,
}
use blueberry_os.Tty.Write.Sequences.{KeptBy, from-KeptBy, if-KeptBy, escape_char-KeptBy}
use blueberry_os.Tty.Write.Runs.{stays}

backspace-Kept :
    (s : Tty)
    → IsValid s
    → s.terminal_column ≢ 0
    → Kept s (record s { terminal_column = sub32 s.terminal_column 1 })
backspace-Kept s v ne =
    let dims = dims_lt s v in
    let inside = v.on.column_in in
    stays s (record s { terminal_column = sub32 s.terminal_column 1 }) v
      (record { width = refl; height = refl; beyond = λ a h. refl }) refl refl refl v.on.row_in
      (omega arith)

-- terminal_writechar, on a valid terminal and for every character, a backspace at column 0 apart,
-- keeps the terminal valid: the cursor stays on the screen, inside of an escape sequence too, and no
-- cell beyond the screen is written.
pub terminal_writechar-KeptBy :
    (c : ℕ) (update : Bool) (s : Tty)
    → IsValid s
    → (c ≢ 8) ⊎ (s.terminal_column ≢ 0)
    → KeptBy s (terminal_writechar c update s)
unfolding terminal_writechar
terminal_writechar-KeptBy c update s v ok = if-KeptBy s (c == 0) _ _ (Kept-refl s v) (
    if-KeptBy s (c == b'\n') _ _ (update_cursor-Kept update s (newline s) (newline-Kept s v))
      (elim (Bool-cases (c == 8)) [
        | inl back ↦
            let b : Tty = record s { terminal_column = sub32 s.terminal_column 1 } in
            rw back (update_cursor-Kept update s b (backspace-Kept s v (ground arith)))
        | inr other ↦ rw other (
            if-KeptBy s (c == 9) _ _
              (update_cursor-Kept update s (write_tab (cursor_index s) s) (write_tab-Kept s v))
              (if-KeptBy s (c == 27) _ _ (begin_escape-Kept s v) (
                if-KeptBy s s.inside_escape _ _ (escape_char-KeptBy c s v) (
                  update_cursor-Kept update s (put_char (cursor_index s) c s)
                    (put_char-Kept (cursor_index s) c s v (cursor_index-lt s v))))))
      ]))

-- No character is a backspace.
abbrev pub NoBackspace : List ℕ → Type 0
NoBackspace [] = Unit
NoBackspace (c ∷ string) = (c ≢ 8) × NoBackspace string

bind-KeptBy :
    (s : Tty) (o : Option Tty) (f : Tty → Option Tty)
    → KeptBy s o
    → ((t : Tty) → IsValid t → KeptBy t (f t))
    → KeptBy s (Option.bind o f)
unfolding Option.bind
bind-KeptBy s none f k next = tt
bind-KeptBy s (some t) f k next = from-KeptBy s t (f t) k.within (next t k.valid)

-- Any text without a backspace, written character by character on a valid terminal, keeps the
-- terminal valid and no cell beyond the screen is written, escape sequences included.
pub write_chars-KeptBy :
    (string : List ℕ) (s : Tty) → IsValid s → NoBackspace string → KeptBy s (write_chars string s)
unfolding write_chars Option.bind
write_chars-KeptBy [] s v n = Kept-refl s v
write_chars-KeptBy (c ∷ string) s v n =
    bind-KeptBy s (terminal_writechar c false s) (write_chars string)
      (terminal_writechar-KeptBy c false s v (inl n.0)) (λ t vt. write_chars-KeptBy string t vt n.1)
