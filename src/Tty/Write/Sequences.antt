-- ===== src/Tty/Write/Sequences.antt =====
-- The escape sequences stay on the screen.
use mathlib.Core.Option
use blueberry_os.Base.{
  ℕ, ◌+◌, refl, Bool, true, false, ◌==◌, ◌&&◌, leb, add32, if◌then◌else◌, Option, none, some,
}
use blueberry_os.Libc.Mem.{Mem, write8}
use blueberry_os.Tty.{Tty}
use blueberry_os.Tty.Escape.{
  buf_size, arg_slot, arg_value, move_left, move_right, run_command, parse_args, leave_escape,
  escape_char,
}
use blueberry_os.Tty.Escape.Moves.{move_left-MovedTo, move_right-MovedTo}
use blueberry_os.Tty.Write.Bounds.{IsValid, Within, Kept, Kept-refl, Kept-trans}
use blueberry_os.Tty.Write.Runs.{
  MovedTo-Kept, reset_color-Kept, change_color-Kept, erase_screen-Kept, erase_line-Kept,
  private_command-Kept, stays,
}

-- A step that returns keeps the terminal valid and writes on the screen only.
abbrev pub KeptBy : Tty → Option Tty → Type 0
KeptBy s none = Unit {0}
KeptBy s (some t) = Kept s t

pub if-KeptBy :
    (s : Tty) (b : Bool) (x y : Option Tty)
    → KeptBy s x
    → KeptBy s y
    → KeptBy s (if b then x else y)
if-KeptBy s true x y p q = p
if-KeptBy s false x y p q = q

map-KeptBy :
    {A : Type 0} (s : Tty) (o : Option A) (f : A → Tty)
    → ((a : A) → Kept s (f a))
    → KeptBy s (Option.map f o)
map-KeptBy s none f k = tt
map-KeptBy s (some a) f k = k a

run_command-KeptBy : (type num : ℕ) (s : Tty) → IsValid s → KeptBy s (run_command type num s)
unfolding run_command
run_command-KeptBy type num s v =
    if-KeptBy s (type == b'm') _ _
      (if-KeptBy s (s.escape_index == 1) _ _ (reset_color-Kept num s v)
        (map-KeptBy s (arg_value s 1) _ (λ bg. change_color-Kept num bg s v)))
      (if-KeptBy s (type == b'J') _ _ (erase_screen-Kept num s v) (
        if-KeptBy s (type == b'K') _ _ (erase_line-Kept num s v) (
          if-KeptBy s (type == b'D') _ _
            (MovedTo-Kept s (move_left num s) _ v (move_left-MovedTo num s v.on))
            (if-KeptBy s (type == b'C') _ _
              (MovedTo-Kept s (move_right num s) _ v (move_right-MovedTo num s v.on))
              (if-KeptBy s s.private_mode _ _ (private_command-Kept type num s v)
                (Kept-refl s v))))))

parse_args-KeptBy : (type : ℕ) (s : Tty) → IsValid s → KeptBy s (parse_args type s)
unfolding parse_args Option.bind
parse_args-KeptBy type s v = bound (arg_value s 0)
  where
    bound : (o : Option ℕ) → KeptBy s (Option.bind o (λ num. run_command type num s))
    bound none = tt
    bound (some num) = run_command-KeptBy type num s v

-- Only the variables of the sequence change.
arguments :
    (s : Tty) (escape index : ℕ) (inside private : Bool) (args : Mem)
    → IsValid s
    → Kept s (record s {
      escape_index = escape;
      arg_index = index;
      inside_escape = inside;
      private_mode = private;
      arg_buf = args;
    })
arguments s escape index inside private args v =
    stays s
      (record s {
        escape_index = escape;
        arg_index = index;
        inside_escape = inside;
        private_mode = private;
        arg_buf = args;
      })
      v (record { width = refl; height = refl; beyond = λ a h. refl }) refl refl refl v.on.row_in
      v.on.column_in

leave-KeptBy : (s : Tty) (o : Option Tty) → KeptBy s o → KeptBy s (Option.map leave_escape o)
unfolding leave_escape
leave-KeptBy s none k = tt
leave-KeptBy s (some t) k =
    Kept-trans s t (leave_escape t) k.within
      (arguments t t.escape_index t.arg_index false t.private_mode t.arg_buf k.valid)

pub from-KeptBy : (s t : Tty) (o : Option Tty) → Within s t → KeptBy t o → KeptBy s o
from-KeptBy s t none w k = tt
from-KeptBy s t (some u) w k = Kept-trans s t u w k

pub escape_char-KeptBy : (c : ℕ) (s : Tty) → IsValid s → KeptBy s (escape_char c s)
unfolding escape_char
escape_char-KeptBy c s v =
    let open_args = λ (e i : ℕ) (b p : Bool) (m : Mem). arguments s e i b p m v in
    let closing = write8 s.arg_buf (arg_slot s.escape_index s.arg_index) 0 in
    let closed = open_args s.escape_index s.arg_index s.inside_escape s.private_mode closing in
    if-KeptBy s (c == b'[') _ _
      (if-KeptBy s (s.escape_index == 0) _ _
        (open_args (s.escape_index + 1) s.arg_index s.inside_escape s.private_mode s.arg_buf)
        (open_args s.escape_index s.arg_index false s.private_mode s.arg_buf))
      (if-KeptBy s (s.escape_index == 1 && c == b'?') _ _
        (open_args s.escape_index s.arg_index s.inside_escape true s.arg_buf)
        (if-KeptBy s (leb 1 s.escape_index && leb b'0' c && leb c b'9') _ _
          (if-KeptBy s (leb buf_size s.arg_index) _ _ (Kept-refl s v) (
            open_args s.escape_index (s.arg_index + 1) s.inside_escape s.private_mode
              (write8 s.arg_buf (arg_slot s.escape_index s.arg_index) c)))
          (if-KeptBy s (c == b';') _ _
            (open_args (add32 s.escape_index 1) 0 s.inside_escape s.private_mode _)
            (leave-KeptBy s (parse_args c (record s { arg_buf = closing })) (
              from-KeptBy s (record s { arg_buf = closing }) _ closed.within
                (parse_args-KeptBy c (record s { arg_buf = closing }) closed.valid))))))
