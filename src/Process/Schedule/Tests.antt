-- ===== src/Process/Schedule/Tests.antt =====
-- The theorems on the states of processes, applied to a small table.
use blueberry_os.Base.{
  ℕ, ◌+◌, ◌==◌, ◌≡◌, refl, inl, arith, true, false, if◌then◌else◌, none, some, [], ◌∷◌, get_elem?,
  replicate,
}
use blueberry_os.Libc.Mem.Copy.{Outside}
use blueberry_os.Process.Schedule.{
  running, blocked_keyboard, Process, Processes, or_current, find_next_process, is_state,
  first_zombie, handle_waitpid, handle_waitpid_block,
}
use blueberry_os.Process.Schedule.Next.{first_behind, find_next_process-first_behind}
use blueberry_os.Process.Schedule.Waiting.{has_child, IsParent, handle_waitpid-handle_waitpid_block}
use blueberry_os.Process.Schedule.Keys.{press_all, Waits, press_all-Reads}
use blueberry_os.Process.Schedule.Stdin.{WritesInside, press_all-WritesInside}

-- A process that asked for two keys.
abbrev reading : Process
reading = record {
  children = replicate 32 none;
  blocked_ebx = 0;
  blocked_ecx = 4096;
  blocked_edx = 2;
  eax = 0;
  state = blocked_keyboard;
  parent = none;
  index_in_parent = 0;
  id = 1;
  stdin_index = 0;
  stdin_size = 32;
  stdin_buffer = λ a. 0;
  memory = λ a. 0;
  initialized = true;
}

abbrev working : Process
working = record reading { state = running }

-- The processes 3 and 5 run.
abbrev table : Processes
table = record {
  processes = λ i. if i == 3 then working else if i == 5 then working else reading;
  current_process_id = 3;
  freed = [];
}

reading-Waits : Waits reading 2
reading-Waits = record { on = refl; blocked = refl; count = refl; small = omega arith }

next_example :
    find_next_process table
    ≡ some (or_current table.processes 3 (first_behind table.processes 3 31 0))
next_example = find_next_process-first_behind table (omega arith)

keys_example :
    let after = press_all (97 ∷ 98 ∷ []) reading in
    (after.state ≡ running)
    × (after.eax ≡ 0 + 2)
    × ((k : ℕ) (key : ℕ) → get_elem? (97 ∷ 98 ∷ []) k ≡ some key → after.memory (4096 + k) ≡ key)
    × ((a : ℕ) → Outside a 4096 2 → after.memory a ≡ reading.memory a)
keys_example = press_all-Reads reading 97 (98 ∷ []) reading-Waits

stdin_example : WritesInside working (press_all (97 ∷ 98 ∷ []) working)
stdin_example = press_all-WritesInside (97 ∷ 98 ∷ []) working (omega arith, inl refl)

-- The process 1 is a child of the process 0, and both run.
abbrev family : Processes
family = record {
  processes = λ i.
      if i == 0
      then record working { children = some 1 ∷ [] }
      else record working { parent = some 0 };
  current_process_id = 0;
  freed = [];
}

family-IsParent : IsParent family 0 1
unfolding has_child first_zombie is_state
family-IsParent = record { other = λ e. omega arith; parent = refl; child = refl; no_zombie = refl }

waiting_example :
    let first = handle_waitpid_block (handle_waitpid family 0) 1 in
    let second = handle_waitpid (handle_waitpid_block family 1) 0 in
    ((first.processes 1).initialized ≡ false)
    × ((first.processes 0).state ≡ running)
    × ((second.processes 1).initialized ≡ false)
    × ((second.processes 0).state ≡ running)
waiting_example = handle_waitpid-handle_waitpid_block family 0 1 family-IsParent refl
