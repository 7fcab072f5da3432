-- ===== src/Process/Schedule/Keys.antt =====
-- handleKeyboardBlock: the keys that a process gets, one after the other.
use blueberry_os.Base.{
  ℕ, zero, suc, ◌+◌, ◌^◌, ◌==◌, ◌≡◌, ◌≢◌, ◌<◌, inl, refl, ◌∙◌, arith, true, false, not,
  if◌then◌else◌, some, List, [], ◌∷◌, length, get_elem?, u32, add32, sub32,
}
use blueberry_os.Libc.Mem.{Mem, write8}
use blueberry_os.Libc.Mem.Copy.{Outside}
use blueberry_os.Process.Schedule.{running, blocked_keyboard, is_state, Process, feed, press}

-- The keys of a list, one after the other.
unfoldable pub press_all : List ℕ → Process → Process
press_all [] process = process
press_all (c ∷ cs) process = press_all cs (press c process)

pub press_all-nil : (process : Process) → press_all [] process ≡ process
unfolding press_all
press_all-nil process = refl

pub press_all-cons :
    (c : ℕ) (cs : List ℕ) (process : Process)
    → press_all (c ∷ cs) process ≡ press_all cs (press c process)
unfolding press_all
press_all-cons c cs process = refl

-- The process waits for `n` more keys, and their places do not wrap.
pub record Waits (process : Process) (n : ℕ) : Type 0 where
  pub on : process.initialized ≡ true
  pub blocked : process.state ≡ blocked_keyboard
  pub count : process.blocked_edx ≡ n
  pub small : process.blocked_ecx + process.eax + n < 2 ^ 32

press-feed : (c n : ℕ) (process : Process) → Waits process n → press c process ≡ feed process c
unfolding press is_state
press-feed c n process w =
    let on : not process.initialized ≡ false = rw w.on refl in
    let b : is_state process.state blocked_keyboard ≡ true = rw w.blocked refl in rw (on, b) refl

-- What one key does to a process that waits for one or for more.
feed_lem :
    (c n : ℕ) (process : Process)
    → Waits process (suc n)
    → ((feed process c).memory ≡ write8 process.memory (process.blocked_ecx + process.eax) c)
      × ((feed process c).eax ≡ process.eax + 1)
      × ((feed process c).blocked_edx ≡ n)
      × ((feed process c).state ≡ (if n == 0 then running else blocked_keyboard))
      × ((feed process c).blocked_ecx ≡ process.blocked_ecx)
      × ((feed process c).initialized ≡ true)
unfolding feed
feed_lem c n process w =
    let e1 : u32 (process.blocked_ecx + process.eax) ≡ process.blocked_ecx + process.eax =
      let s = w.small in omega arith in
    let e2 : sub32 process.blocked_edx 1 ≡ n = let s = w.small in let k = w.count in omega arith in
    let e3 : add32 process.eax 1 ≡ process.eax + 1 = let s = w.small in omega arith in
    let b = w.blocked in (rw e1 refl, e3, e2, rw (e2, b) refl, refl, w.on)

write8-outside : (m : Mem) (p v a : ℕ) → a ≢ p → write8 m p v a ≡ m a
unfolding write8
write8-outside m p v a ne = ground arith

write8-inside : (m : Mem) (p v : ℕ) → write8 m p v p ≡ v
unfolding write8
write8-inside m p v = ground arith

only_key :
    (m : Mem) (buf c k key : ℕ) → get_elem? (c ∷ []) k ≡ some key → write8 m buf c (buf + k) ≡ key
unfolding write8
only_key m buf c zero key e = ground arith
only_key m buf c (suc k) key e = cc

keys_from :
    (m after : Mem) (buf c : ℕ) (cs : List ℕ)
    → ((k key : ℕ) → get_elem? cs k ≡ some key → after (buf + 1 + k) ≡ key)
    → after buf ≡ c
    → (k key : ℕ) → get_elem? (c ∷ cs) k ≡ some key
    → after (buf + k) ≡ key
keys_from m after buf c cs rest first zero key e = ground arith
keys_from m after buf c cs rest first (suc k) key e =
    let p : buf + suc k ≡ buf + 1 + k = omega arith in rw p (rest k key e)

-- The rounds of handleKeyboardBlock for one process that waits for keys, whose places do not wrap:
-- when as many have been pressed as it asked for, it runs, its result has grown by their number,
-- they stand one after the other in its buffer, behind what was read before, and no other byte of
-- its memory has changed.
pub press_all-Reads :
    (process : Process) (c : ℕ) (cs : List ℕ)
    → Waits process (suc (length cs))
    → let after = press_all (c ∷ cs) process in
      let buf = process.blocked_ecx + process.eax in
      (after.state ≡ running)
      × (after.eax ≡ process.eax + suc (length cs))
      × ((k : ℕ) (key : ℕ) → get_elem? (c ∷ cs) k ≡ some key → after.memory (buf + k) ≡ key)
      × ((a : ℕ) → Outside a buf (suc (length cs)) → after.memory a ≡ process.memory a)
press_all-Reads process c [] w =
    let (mem, eax, edx, st, ecx, on) = feed_lem c 0 process w in
    rw (press_all-cons c [] process, press-feed c 1 process w, press_all-nil (feed process c))
      (
        st,
        eax,
        λ k key e. rw mem (only_key process.memory (process.blocked_ecx + process.eax) c k key e),
        λ a h.
            rw mem (
              write8-outside process.memory (process.blocked_ecx + process.eax) c a (ground arith)),
      )
press_all-Reads process c (d ∷ cs) w =
    let n = suc (length cs) in
    let (mem, eax, edx, st, ecx, on) = feed_lem c n process w in
    let next = feed process c in
    let w' : Waits next n = record {
      on = on;
      blocked = st ∙ (let more : (n == 0) ≡ false = ground arith in rw more refl);
      count = edx;
      small = rw (ecx, eax) (let s = w.small in omega arith);
    } in
    let (st', eax', keys, kept) = press_all-Reads next d cs w' in
    let buf = process.blocked_ecx + process.eax in
    let buf' : next.blocked_ecx + next.eax ≡ buf + 1 = omega arith in
    rw (press_all-cons c (d ∷ cs) process, press-feed c (suc n) process w)
      (
        st',
        eax' ∙ omega arith,
        keys_from process.memory (press_all (d ∷ cs) next).memory buf c (d ∷ cs) (rw buf' at keys)
            (kept buf (inl (omega arith)) ∙ rw mem (write8-inside process.memory buf c)),
        λ a h.
            kept a (ground arith) ∙ rw mem (write8-outside process.memory buf c a (ground arith)),
      )
