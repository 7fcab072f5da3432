-- ===== src/Process/Schedule/Next.antt =====
-- findNextProcess: it takes the first runnable process behind the current one, in a circle.
use blueberry_os.Base.{
  ℕ, zero, suc, ◌+◌, ◌%◌, ◌==◌, ◌≡◌, ◌≤◌, ◌<◌, refl, ◌∙◌, ap, arith, Bool, true, false, leb,
  if◌then◌else◌, Option, none, some,
}
use blueberry_os.Process.Schedule.{
  Process, Processes, processes_max, is_runnable, Chosen, chosen, outside, next_loop, or_current,
  find_next_process,
}

-- The index that lies `k + 1` behind the current one, in a circle.
abbrev pub behind : ℕ → ℕ → ℕ
behind current k = (current + 1 + k) % processes_max

-- The first runnable process of the `n` that lie `k + 1` and more behind the current one.
unfoldable pub first_behind : (ℕ → Process) → ℕ → ℕ → ℕ → Option Chosen
first_behind table current zero k = none
first_behind table current (suc n) k =
    let rest = first_behind table current n (k + 1) in
    if is_runnable (table (behind current k)) then some (chosen (behind current k)) else rest

if-some :
    (b : Bool) (c : Chosen)
    → (if b then some (some c) else some none) ≡ some (if b then some c else none)
if-some true c = refl
if-some false c = refl

if-push :
    (b : Bool) (x y : Option Chosen) → (if b then some x else some y) ≡ some (if b then x else y)
if-push true x y = refl
if-push false x y = refl

-- The index after `i`.
abbrev pub wrap : ℕ → ℕ
wrap i = if leb processes_max (i + 1) then 0 else i + 1

next_loop-step :
    (table : ℕ → Process) (current fuel i : ℕ)
    → i < processes_max
    → next_loop (suc fuel) table current i ≡ (
        if is_runnable (table i)
        then some (some (chosen i))
        else if wrap i == current
        then some none
        else next_loop fuel table current (wrap i))
unfolding next_loop
next_loop-step table current fuel i small =
    let e : leb processes_max i ≡ false = ground arith in rw e refl

first_behind-step :
    (table : ℕ → Process) (current n k : ℕ)
    → first_behind table current (suc n) k ≡ (
        if is_runnable (table (behind current k))
        then some (chosen (behind current k))
        else first_behind table current n (k + 1))
unfolding first_behind
first_behind-step table current n k = refl

first_behind-zero : (table : ℕ → Process) (current k : ℕ) → first_behind table current 0 k ≡ none
unfolding first_behind
first_behind-zero table current k = refl

wrap-behind : (current k : ℕ) → wrap (behind current k) ≡ behind current (k + 1)
wrap-behind current k = ground arith

next_loop-first_behind :
    (table : ℕ → Process) (current n k : ℕ)
    → current < processes_max
    → suc n + k ≡ 31
    → next_loop (suc n) table current (behind current k)
      ≡ some (first_behind table current (suc n) k)
next_loop-first_behind table current zero k small total =
    let here = behind current k in
    let in_table : here < processes_max = omega arith in
    let last : (behind current (k + 1) == current) ≡ true = ground arith in
    rw
      (
        next_loop-step table current 0 here in_table,
        first_behind-step table current 0 k,
        first_behind-zero table current (k + 1),
        wrap-behind current k,
        last,
      )
      (if-some (is_runnable (table here)) (chosen here))
next_loop-first_behind table current (suc n) k small total =
    let here = behind current k in
    let in_table : here < processes_max = omega arith in
    let more : (behind current (k + 1) == current) ≡ false = ground arith in
    let rest = next_loop-first_behind table current n (k + 1) small (omega arith) in
    rw
      (
        next_loop-step table current (suc n) here in_table,
        first_behind-step table current (suc n) k,
        wrap-behind current k,
        more,
        rest,
      )
      (if-push (is_runnable (table here)) (some (chosen here))
        (first_behind table current (suc n) (k + 1)))

-- findNextProcess, where the current process is not the last one of the array: the loop ends, and
-- what is returned is the first runnable process behind the current one, in a circle; where no other
-- process is runnable it is the current one, if that is initialized, and the kernel hangs if not.
pub find_next_process-first_behind :
    (s : Processes)
    → s.current_process_id + 1 < processes_max
    → find_next_process s
      ≡ some (
          or_current s.processes s.current_process_id
            (first_behind s.processes s.current_process_id 31 0))
unfolding find_next_process
find_next_process-first_behind s small =
    let current = s.current_process_id in
    let start : behind current 0 ≡ current + 1 = omega arith in
    let found = next_loop-first_behind s.processes current 30 0 (omega arith) (omega arith) in
    let found' = rw start at found in rw (found', find_next_process) refl

next_loop-past :
    (table : ℕ → Process) (current fuel i : ℕ)
    → processes_max ≤ i
    → next_loop (suc fuel) table current i ≡ some (some (outside i))
unfolding next_loop
next_loop-past table current fuel i past =
    let e : leb processes_max i ≡ true = ground arith in rw e refl

-- findNextProcess, where the current process is the last one of the array, reads behind the array.
pub find_next_process-outside :
    (s : Processes) → s.current_process_id ≡ 31 → find_next_process s ≡ some (outside processes_max)
unfolding find_next_process or_current
find_next_process-outside s last =
    let current = s.current_process_id in
    let past = next_loop-past s.processes current 30 (current + 1) (omega arith) in
    let found : find_next_process s ≡ some (outside (current + 1)) =
      rw (past, find_next_process) refl in
    found ∙ ap (λ i. some (outside i)) (omega arith)
