-- ===== src/Process/Schedule/Stdin.antt =====
-- handleKeyboardBlock and the buffer of a process that runs.
use blueberry_os.Base.{
  ℕ, ◌==◌, ◌≡◌, ◌≤◌, ◌⊎◌, inl, inr, refl, ◌∙◌, arith, not, ◌&&◌, leb, Bool-cases, List, [], ◌∷◌,
}
use blueberry_os.Libc.Mem.{write8}
use blueberry_os.Libc.Mem.Copy.{memmove_lem}
use blueberry_os.Process.Schedule.{
  running, blocked_keyboard, is_state, Process, max_stdin_buffer_size, feed, store, press,
}
use blueberry_os.Process.Schedule.Keys.{press_all}

-- The buffer has 32, 64 or 128 bytes, and the index does not lie behind its end.
abbrev pub StdinIn : Process → Type 0
StdinIn process =
    (process.stdin_index ≤ process.stdin_size)
    × ((process.stdin_size ≡ 32) ⊎ ((process.stdin_size ≡ 64) ⊎ (process.stdin_size ≡ 128)))

-- A buffer grows at most, and its bytes behind the new end stay as they are.
abbrev pub WritesInside : Process → Process → Type 0
WritesInside process process' =
    StdinIn process'
    × (process.stdin_size ≤ process'.stdin_size)
    × ((a : ℕ) → process'.stdin_size ≤ a → process'.stdin_buffer a ≡ process.stdin_buffer a)

store-WritesInside :
    (c : ℕ) (process : Process) → StdinIn process → WritesInside process (store process c)
unfolding store write8
store-WritesInside c process (inside, size) =
    let (code, copied, kept) = memmove_lem process.stdin_buffer 0 96 32 in
    elim (Bool-cases (leb max_stdin_buffer_size process.stdin_size)) [
      | inl big ↦ rw big ((inside, size), omega arith, λ a h. kept a (ground arith))
      | inr small ↦ rw small ((ground arith, ground arith), ground arith, λ a h. ground arith)
    ]

press-WritesInside :
    (c : ℕ) (process : Process) → StdinIn process → WritesInside process (press c process)
unfolding press feed
press-WritesInside c process inside =
    let same : WritesInside process process = (inside, omega arith, λ a h. refl) in
    elim (Bool-cases (not process.initialized)) [
      | inl off ↦ rw off same
      | inr on ↦ elim (Bool-cases (is_state process.state blocked_keyboard)) [
        | inl waits ↦ rw (on, waits) same
        | inr free ↦ elim (Bool-cases (is_state process.state running && not (process.id == 0))) [
          | inl runs ↦ rw (on, free, runs) (store-WritesInside c process inside)
          | inr idle ↦ rw (on, free, idle) same
        ]
      ]
    ]

-- The rounds of handleKeyboardBlock for one process and any number of keys, from a buffer of 32, 64
-- or 128 bytes and an index not behind its end: that stays so, the buffer does not shrink, and no
-- byte behind its end is written.
pub press_all-WritesInside :
    (cs : List ℕ) (process : Process)
    → StdinIn process
    → WritesInside process (press_all cs process)
unfolding press_all
press_all-WritesInside [] process inside = (inside, omega arith, λ a h. refl)
press_all-WritesInside (c ∷ cs) process inside =
    let (inside1, grown1, kept1) = press-WritesInside c process inside in
    let (inside2, grown2, kept2) = press_all-WritesInside cs (press c process) inside1 in
    (inside2, omega arith, λ a h. kept2 a h ∙ kept1 a (omega arith))
