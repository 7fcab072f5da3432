-- ===== src/Tty/Write/Returns.antt =====
-- terminal_writechar returns: the numbers of an escape sequence end within the argument buffer.
use mathlib.Core.Option
use blueberry_os.Base.{
  ℕ, ◌+◌, ◌-◌, ◌*◌, ◌≤◌, ◌<◌, ◌≡◌, ◌⊎◌, refl, arith, Bool-cases, inl, inr, Bool, true, false, ◌==◌,
  ◌&&◌, leb, if◌then◌else◌, Option, none, some,
}
use blueberry_os.Libc.Mem.{write8}
use blueberry_os.Libc.Mem.Copy.{write8_self}
use blueberry_os.Libc.Number.Returns.{Returns, if-Returns, map-Returns, atoi-Returns}
use blueberry_os.Tty.{Tty, cursor_index}
use blueberry_os.Tty.Escape.{
  buf_size, arg_slot, arg_value, run_command, parse_args, leave_escape, escape_char,
}
use blueberry_os.Tty.Write.{update_cursor, put_char, terminal_writechar}

-- Inside of a sequence, behind its `[`: at most four arguments, and the slot for the next character
-- within the 32 bytes of argBuf.
pub record Counted (s : Tty) : Type 0 where
  pub some_argument : 1 ≤ s.escape_index
  pub few_arguments : s.escape_index ≤ 4
  pub index_in : s.arg_index ≤ 8
  pub slot_in : (s.escape_index - 1) * 8 + s.arg_index < 32

module _ (s : Tty) (k : Counted s) where
  slot_lem : arg_slot s.escape_index s.arg_index ≡ (s.escape_index - 1) * 8 + s.arg_index
  slot_lem = omega (arith, k.some_argument, k.few_arguments, k.index_in)

  at : (slot i : ℕ) → i ≤ slot → write8 s.arg_buf slot 0 (i + (slot - i)) ≡ 0
  at slot i le = let e : i + (slot - i) ≡ slot = omega arith in rw e (write8_self s.arg_buf slot 0)

  closed_arg-Returns :
      (j : ℕ) (t : Tty)
      → t.arg_buf ≡ write8 s.arg_buf (arg_slot s.escape_index s.arg_index) 0
      → j * 8 ≤ arg_slot s.escape_index s.arg_index
      → Returns (arg_value t j)
  unfolding arg_value
  closed_arg-Returns j t e le =
      let slot = arg_slot s.escape_index s.arg_index in
      rw e (
        atoi-Returns 34 (write8 s.arg_buf slot 0) (j * 8) (slot - j * 8) (at slot (j * 8) le)
          (omega (arith, slot_lem, k.few_arguments, k.index_in)))

  -- The sequence with its last argument closed, as escape_char hands it to parse_args.
  abbrev closed : Tty
  closed = record s { arg_buf = write8 s.arg_buf (arg_slot s.escape_index s.arg_index) 0 }

  run_command-Returns : (type num : ℕ) → Returns (run_command type num closed)
  unfolding run_command
  run_command-Returns type num = elim (Bool-cases (s.escape_index == 1)) [
    | inl one ↦ rw one (
        if-Returns (type == b'm') _ _ tt (
          if-Returns (type == b'J') _ _ tt (
            if-Returns (type == b'K') _ _ tt (
              if-Returns (type == b'D') _ _ tt
                (if-Returns (type == b'C') _ _ tt (if-Returns s.private_mode _ _ tt tt))))))
    | inr several ↦ rw several (
        if-Returns (type == b'm') _ _
          (map-Returns _ (arg_value closed 1) (
            closed_arg-Returns 1 closed refl
              (ground (arith, slot_lem, k.some_argument, k.few_arguments))))
          (if-Returns (type == b'J') _ _ tt (
            if-Returns (type == b'K') _ _ tt (
              if-Returns (type == b'D') _ _ tt
                (if-Returns (type == b'C') _ _ tt (if-Returns s.private_mode _ _ tt tt))))))
  ]

  parse_args-Returns : (type : ℕ) → Returns (parse_args type closed)
  unfolding parse_args Option.bind
  parse_args-Returns type =
      bound (arg_value closed 0) (closed_arg-Returns 0 closed refl (omega arith))
    where
      bound :
          (o : Option ℕ) → Returns o → Returns (Option.bind o (λ num. run_command type num closed))
      bound none h = absurd h
      bound (some num) h = run_command-Returns type num

  escape_char-Returns : (c : ℕ) → Returns (escape_char c s)
  unfolding escape_char
  escape_char-Returns c = if-Returns (c == b'[') _ _ (if-Returns (s.escape_index == 0) _ _ tt tt) (
      if-Returns (s.escape_index == 1 && c == b'?') _ _ tt (
        if-Returns (leb 1 s.escape_index && leb b'0' c && leb c b'9') _ _
          (if-Returns (leb buf_size s.arg_index) _ _ tt tt)
          (if-Returns (c == b';') _ _ tt
            (map-Returns leave_escape (parse_args c closed) (parse_args-Returns c)))))

-- A `[` reads and writes no argument.
bracket-Returns : (c : ℕ) (s : Tty) → c ≡ b'[' → Returns (escape_char c s)
unfolding escape_char
bracket-Returns c s e =
    let here : (c == b'[') ≡ true = ground arith in
    rw here (if-Returns (s.escape_index == 0) _ _ tt tt)

-- terminal_writechar returns, for every character outside of an escape sequence and inside of one that
-- is `Counted`, and for a `[` in any case.
pub terminal_writechar-Returns :
    (c : ℕ) (update : Bool) (s : Tty)
    → (s.inside_escape ≡ false) ⊎ (c ≡ b'[') ⊎ Counted s
    → Returns (terminal_writechar c update s)
unfolding terminal_writechar
terminal_writechar-Returns c update s ok = if-Returns (c == 0) _ _ tt (
    if-Returns (c == b'\n') _ _ tt (
      if-Returns (c == 8) _ _ tt
        (if-Returns (c == 9) _ _ tt (if-Returns (c == 27) _ _ tt (ending ok)))))
  where
    ending :
        (s.inside_escape ≡ false) ⊎ (c ≡ b'[') ⊎ Counted s
        → Returns (
            if s.inside_escape
            then escape_char c s
            else some (update_cursor update (put_char (cursor_index s) c s)))
    ending (inl outside) = rw outside tt
    ending (inr (inl e)) = if-Returns s.inside_escape _ _ (bracket-Returns c s e) tt
    ending (inr (inr k)) = if-Returns s.inside_escape _ _ (escape_char-Returns s k c) tt
