-- ===== src/Process/Schedule.antt =====
-- usermode.c: the states of the processes. findNextProcess, terminateProcess, handleWaitpid,
-- handleWaitpidBlock and handleKeyboardBlock.
-- A pointer to a process is an index into `processes`, `none` for a null pointer.
pub mod Next
pub mod Keys
pub mod Stdin
pub mod Waiting
mod Tests
use blueberry_os.Base.{
  ℕ, zero, suc, ◌+◌, ◌-◌, ◌*◌, ◌%◌, ◌^◌, ◌==◌, Bool, true, false, not, ◌&&◌, ltb, leb,
  if◌then◌else◌, Option, none, some, List, [], ◌∷◌, set, u32, add32, sub32,
}
use blueberry_os.Libc.Mem.{Mem, write8, memmove}

pub data ProcessState : Type 0 where
  running : ProcessState
  zombie : ProcessState
  blocked_keyboard : ProcessState
  blocked_waitpid : ProcessState

unfoldable pub is_state : ProcessState → ProcessState → Bool
is_state running running = true
is_state zombie zombie = true
is_state blocked_keyboard blocked_keyboard = true
is_state blocked_waitpid blocked_waitpid = true
is_state _ _ = false

-- The fields of process_t that the functions below use. `memory` is what the page directory maps,
-- `stdin_buffer` the bytes behind that pointer.
pub record Process : Type 0 where
  pub children : List (Option ℕ)
  pub blocked_ebx : ℕ
  pub blocked_ecx : ℕ
  pub blocked_edx : ℕ
  pub eax : ℕ
  pub state : ProcessState
  pub parent : Option ℕ
  pub index_in_parent : ℕ
  pub id : ℕ
  pub stdin_index : ℕ
  pub stdin_size : ℕ
  pub stdin_buffer : Mem
  pub memory : Mem
  pub initialized : Bool

-- `freed` logs the processes whose page directory was freed, the last one first.
pub record Processes : Type 0 where
  pub processes : ℕ → Process
  pub current_process_id : ℕ
  pub freed : List ℕ

abbrev pub processes_max : ℕ
processes_max = 32

abbrev pub put_process : (ℕ → Process) → ℕ → Process → ℕ → Process
put_process table p process i = if i == p then process else table i

unfoldable pub is_runnable : Process → Bool
is_runnable process = process.initialized && is_state process.state running

-- What findNextProcess does: it returns a process, reads behind the array, or never returns.
pub data Chosen : Type 0 where
  chosen : ℕ → Chosen
  outside : ℕ → Chosen
  hangs : Chosen

-- The loop; `none` where the fuel ran out, `some none` where it ends with nothing found.
unfoldable pub next_loop : ℕ → (ℕ → Process) → ℕ → ℕ → Option (Option Chosen)
next_loop zero table current i = none
next_loop (suc fuel) table current i =
    let i' = if leb processes_max (i + 1) then 0 else i + 1 in
    let rest = next_loop fuel table current i' in
    if leb processes_max i
    then some (some (outside i))
    else if is_runnable (table i)
    then some (some (chosen i))
    else if i' == current
    then some none
    else rest

-- What follows the loop.
unfoldable pub or_current : (ℕ → Process) → ℕ → Option Chosen → Chosen
or_current table current (some found) = found
or_current table current none = if (table current).initialized then chosen current else hangs

-- The fuel: every round but the last one goes on to a new index other than the current one.
abbrev pub rounds : ℕ
rounds = 31

unfoldable pub find_next_process : Processes → Option Chosen
find_next_process s =
    elim (next_loop rounds s.processes s.current_process_id (s.current_process_id + 1)) [
      | none ↦ none
      | some found ↦ some (or_current s.processes s.current_process_id found)
    ]

-- The loop of terminateProcess over the children.
unfoldable pub drop_children : List (Option ℕ) → Processes → Processes
drop_children [] s = s
drop_children (none ∷ children) s = drop_children children s
drop_children (some c ∷ children) s = drop_children children (record s {
  processes = put_process s.processes c (record (s.processes c) { initialized = false });
  freed = c ∷ s.freed;
})

-- `process->parent->children[process->indexInParent] = 0`
unfoldable pub leave_parent : Option ℕ → ℕ → (ℕ → Process) → ℕ → Process
leave_parent none index table = table
leave_parent (some q) index table =
    put_process table q (record (table q) { children = set (table q).children index none })

-- What kfree does with the stdin buffer is part of the heap, not of this state.
unfoldable pub terminate_process : Processes → ℕ → Processes
terminate_process s p =
    let ended = put_process s.processes p (record (s.processes p) { initialized = false }) in
    let left = leave_parent (s.processes p).parent (s.processes p).index_in_parent ended in
    let s' = drop_children (left p).children (record s { processes = left }) in
    record s' { freed = p ∷ s'.freed }

-- The loop of handleWaitpid.
unfoldable pub first_zombie : (ℕ → Process) → List (Option ℕ) → Option ℕ
first_zombie table [] = none
first_zombie table (none ∷ children) = first_zombie table children
first_zombie table (some c ∷ children) =
    if is_state (table c).state zombie then some c else first_zombie table children

unfoldable pub handle_waitpid : Processes → ℕ → Processes
handle_waitpid s p = elim (first_zombie s.processes (s.processes p).children) [
  | some c ↦ terminate_process s c
  | none ↦ record s {
    processes = put_process s.processes p (record (s.processes p) { state = blocked_waitpid });
  }
]

-- `if (status != NULL) *status = 0;`, an int of four bytes.
unfoldable pub clear_status : Mem → ℕ → Mem
clear_status m status =
    if status == 0
    then m
    else write8 (write8 (write8 (write8 m status 0) (status + 1) 0) (status + 2) 0) (status + 3) 0

-- The parent that waits runs again, with the child's id as the result of its call.
unfoldable pub wake : Process → ℕ → Process
wake parent id = record parent {
  state = running;
  eax = id;
  memory = clear_status parent.memory parent.blocked_ebx;
}

unfoldable pub handle_waitpid_block : Processes → ℕ → Processes
handle_waitpid_block s p = elim (s.processes p).parent [
  | none ↦ terminate_process s p
  | some q ↦
      if is_state (s.processes q).state blocked_waitpid
      then terminate_process
          (record s {
            processes = put_process s.processes q (wake (s.processes q) (s.processes p).id);
          })
          p
      else record s {
        processes = put_process s.processes p (record (s.processes p) { state = zombie });
      }
]

abbrev pub max_stdin_buffer_size : ℕ
max_stdin_buffer_size = 128

abbrev pub stdin_setback : ℕ
stdin_setback = 32

-- What a key does to a process that waits for one.
unfoldable pub feed : Process → ℕ → Process
feed process c =
    let left = sub32 process.blocked_edx 1 in
    record process {
      memory = write8 process.memory (u32 (process.blocked_ecx + process.eax)) c;
      blocked_edx = left;
      eax = add32 process.eax 1;
      state = if left == 0 then running else process.state;
    }

-- What a key does to a process that runs. krealloc keeps the bytes of the buffer.
unfoldable pub store : Process → ℕ → Process
store process c =
    if leb max_stdin_buffer_size process.stdin_size
    then record process {
      stdin_buffer =
          (memmove process.stdin_buffer 0 (max_stdin_buffer_size - stdin_setback) stdin_setback).1;
    }
    else record process {
      stdin_size =
          if leb process.stdin_size process.stdin_index
          then u32 (process.stdin_size * 2)
          else process.stdin_size;
      stdin_buffer = write8 process.stdin_buffer process.stdin_index c;
      stdin_index = add32 process.stdin_index 1;
    }

-- One round of the loop of handleKeyboardBlock.
unfoldable pub press : ℕ → Process → Process
press c process =
    if not process.initialized
    then process
    else if is_state process.state blocked_keyboard
    then feed process c
    else if is_state process.state running && not (process.id == 0)
    then store process c
    else process

unfoldable pub handle_keyboard_block : Processes → ℕ → Processes
handle_keyboard_block s c =
    if not (s.processes s.current_process_id).initialized then s else record s {
      processes = λ i. if ltb i processes_max then press c (s.processes i) else s.processes i;
    }
