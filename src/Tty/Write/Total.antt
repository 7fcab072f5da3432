-- ===== src/Tty/Write/Total.antt =====
-- terminal_writechar returns and keeps the terminal valid, and so does a whole plain text.
use mathlib.Core.Option
use blueberry_os.Base.{
  ℕ, zero, suc, ◌+◌, ◌-◌, ◌%◌, ◌==◌, ◌≡◌, ◌≢◌, ◌⊎◌, inl, inr, refl, ap, subst, ◌∙◌, arith, Bool,
  true, false, leb, if◌then◌else◌, Bool-cases, Option, none, some, List, [], ◌∷◌, add32,
}
use blueberry_os.Libc.Number.Returns.{Returns}
use blueberry_os.Tty.{Tty, cursor_index, vga_entry, vga_color, write_cell}
use blueberry_os.Tty.Screen.{terminal_scroll_down}
use blueberry_os.Tty.Write.{
  scroll_if_below, advance, update_cursor, put_char, tab_loop, write_tab, newline,
  terminal_writechar, write_chars,
}
use blueberry_os.Tty.Write.Bounds.{IsValid, Kept, Kept-refl, Kept-trans}
use blueberry_os.Tty.Write.Sequences.{KeptBy}
use blueberry_os.Tty.Write.Stays.{terminal_writechar-KeptBy}
use blueberry_os.Tty.Write.Returns.{Counted, terminal_writechar-Returns}

both : (s : Tty) (o : Option Tty) → KeptBy s o → Returns o → (t : Tty) × (o ≡ some t) × Kept s t
both s none k r = absurd r
both s (some t) k r = (t, refl, k)

-- terminal_writechar on a valid terminal, for a character that is no backspace at column 0. It is
-- outside of an escape sequence; or the character is `[`, as it is right behind the escape character
-- where the sequence is well formed; or it is behind the `[`, in one of at most four arguments, with
-- room for the character in argBuf. Then terminal_writechar returns, the terminal is valid again, with the cursor on the screen, and no
-- cell beyond the screen is written.
pub terminal_writechar-Kept :
    (c : ℕ) (update : Bool) (s : Tty)
    → IsValid s
    → (c ≢ 8) ⊎ (s.terminal_column ≢ 0)
    → (s.inside_escape ≡ false) ⊎ (c ≡ b'[') ⊎ Counted s
    → (t : Tty) × (terminal_writechar c update s ≡ some t) × Kept s t
terminal_writechar-Kept c update s v ok counted =
    both s (terminal_writechar c update s) (terminal_writechar-KeptBy c update s v ok)
      (terminal_writechar-Returns c update s counted)

scroll_if_below-inside_escape : (s : Tty) → (scroll_if_below s).inside_escape ≡ s.inside_escape
unfolding scroll_if_below terminal_scroll_down
scroll_if_below-inside_escape s = elim (Bool-cases (leb s.vga_height s.terminal_row)) [
  | inl e ↦ rw e refl
  | inr e ↦ rw e refl
]

advance-inside_escape : (s : Tty) → (advance s).inside_escape ≡ s.inside_escape
unfolding advance
advance-inside_escape s = elim (Bool-cases (leb s.vga_width (add32 s.terminal_column 1))) [
  | inl e ↦ rw e (
      scroll_if_below-inside_escape
        (record s { terminal_column = 0; terminal_row = add32 s.terminal_row 1 }))
  | inr e ↦ rw e refl
]

put_char-inside_escape :
    (index c : ℕ) (s : Tty) → (put_char index c s).inside_escape ≡ s.inside_escape
unfolding put_char
put_char-inside_escape index c s = advance-inside_escape (record s {
  terminal_buffer =
      write_cell s.terminal_buffer index (vga_entry c (vga_color s.terminal_fg s.terminal_bg));
})

tab_loop-inside_escape :
    (n i index : ℕ) (s : Tty) → (tab_loop n i index s).inside_escape ≡ s.inside_escape
unfolding tab_loop
tab_loop-inside_escape zero i index s = refl
tab_loop-inside_escape (suc n) i index s =
    tab_loop-inside_escape n (i + 1) index (put_char (index + i) b' ' s)
    ∙ put_char-inside_escape (index + i) b' ' s

newline-inside_escape : (s : Tty) → (newline s).inside_escape ≡ s.inside_escape
unfolding newline
newline-inside_escape s =
    scroll_if_below-inside_escape
      (record s { terminal_column = 0; terminal_row = add32 s.terminal_row 1 })

-- The outcome is outside of an escape sequence.
abbrev pub OutsideBy : Option Tty → Type 0
OutsideBy none = Unit {0}
OutsideBy (some t) = t.inside_escape ≡ false

if-OutsideBy :
    (b : Bool) (x y : Option Tty) → OutsideBy x → OutsideBy y → OutsideBy (if b then x else y)
if-OutsideBy true x y p q = p
if-OutsideBy false x y p q = q

else-OutsideBy :
    (b : Bool) (x y : Option Tty) → b ≡ false → OutsideBy y → OutsideBy (if b then x else y)
else-OutsideBy true x y e q = cc
else-OutsideBy false x y e q = q

terminal_writechar-OutsideBy :
    (c : ℕ) (s : Tty) → c ≢ 27 → s.inside_escape ≡ false → OutsideBy (terminal_writechar c false s)
unfolding terminal_writechar update_cursor write_tab
terminal_writechar-OutsideBy c s other out = if-OutsideBy (c == 0) _ _ out (
    if-OutsideBy (c == b'\n') _ _ (newline-inside_escape s ∙ out) (
      if-OutsideBy (c == 8) _ _ out (
        if-OutsideBy (c == 9) _ _
          (tab_loop-inside_escape (4 - cursor_index s % 4) 0 (cursor_index s) s ∙ out)
          (else-OutsideBy (c == 27) _ _ (ground arith) (
            else-OutsideBy s.inside_escape _ _ out
              (put_char-inside_escape (cursor_index s) c s ∙ out))))))

-- No character is a backspace or begins an escape sequence.
abbrev pub IsPlain : List ℕ → Type 0
IsPlain [] = Unit
IsPlain (c ∷ string) = (c ≢ 8) × (c ≢ 27) × IsPlain string

-- A text without a backspace and without an escape character, written on a valid terminal outside of
-- an escape sequence: all of it is written, the terminal is valid again, with the cursor on the
-- screen, and no cell beyond the screen is written.
pub write_chars-Kept :
    (string : List ℕ) (s : Tty)
    → IsValid s
    → s.inside_escape ≡ false
    → IsPlain string
    → (t : Tty) × (write_chars string s ≡ some t) × Kept s t
unfolding write_chars Option.bind
write_chars-Kept [] s v out plain = (s, refl, Kept-refl s v)
write_chars-Kept (c ∷ string) s v out (not_back, not_escape, plain) =
    let (t, e, k) = terminal_writechar-Kept c false s v (inl not_back) (inl out) in
    let out' : t.inside_escape ≡ false =
      subst OutsideBy e (terminal_writechar-OutsideBy c s not_escape out) in
    let (u, e', k') = write_chars-Kept string t k.valid out' plain in
    (u, ap (λ o. Option.bind o (write_chars string)) e ∙ e', Kept-trans s t u k.within k')
