-- ===== src/Process/Schedule/Waiting.antt =====
-- handleWaitpid and handleWaitpidBlock: a child that ends and a parent that waits, in either order.
use blueberry_os.Base.{
  ℕ, ◌==◌, ◌≡◌, ◌≢◌, refl, sym, ap, ◌∙◌, arith, Bool, true, false, ◌||◌, Bool-cases, inl, inr,
  Option, none, some, List, [], ◌∷◌, ==-refl, ==→eq,
}
use blueberry_os.Process.Schedule.{
  running, zombie, blocked_waitpid, is_state, Process, Processes, put_process, drop_children,
  leave_parent, terminate_process, first_zombie, handle_waitpid, wake, handle_waitpid_block,
}

put_process_self : (table : ℕ → Process) (p : ℕ) (x : Process) → put_process table p x p ≡ x
put_process_self table p x = rw (==-refl p) refl

put_process_ne :
    (table : ℕ → Process) (p : ℕ) (x : Process) (i : ℕ) → i ≢ p → put_process table p x i ≡ table i
put_process_ne table p x i ne = let e : (i == p) ≡ false = ground arith in rw e refl

-- Ending children keeps the states, and who has ended has ended.
drop_children-state :
    (children : List (Option ℕ)) (s : Processes) (i : ℕ)
    → ((drop_children children s).processes i).state ≡ (s.processes i).state
unfolding drop_children
drop_children-state [] s i = refl
drop_children-state (none ∷ children) s i = drop_children-state children s i
drop_children-state (some c ∷ children) s i = drop_children-state children _ i ∙ same
  where
    same :
        (put_process s.processes c (record (s.processes c) { initialized = false }) i).state
        ≡ (s.processes i).state
    same = elim (Bool-cases (i == c)) [
      | inl here ↦ let e : i ≡ c = ==→eq i c here in rw (here, e) refl
      | inr away ↦ rw away refl
    ]

drop_children-ended :
    (children : List (Option ℕ)) (s : Processes) (i : ℕ)
    → (s.processes i).initialized ≡ false
    → ((drop_children children s).processes i).initialized ≡ false
unfolding drop_children
drop_children-ended [] s i e = e
drop_children-ended (none ∷ children) s i e = drop_children-ended children s i e
drop_children-ended (some c ∷ children) s i e =
    drop_children-ended children
      (record s {
        processes = put_process s.processes c (record (s.processes c) { initialized = false });
        freed = c ∷ s.freed;
      })
      i after
  where
    after :
        (put_process s.processes c (record (s.processes c) { initialized = false }) i).initialized
        ≡ false
    after = elim (Bool-cases (i == c)) [ inl here ↦ rw here refl | inr away ↦ rw away e ]

leave_parent-fields :
    (parent : Option ℕ) (index : ℕ) (table : ℕ → Process) (i : ℕ)
    → ((leave_parent parent index table i).state ≡ (table i).state)
      × ((leave_parent parent index table i).initialized ≡ (table i).initialized)
unfolding leave_parent
leave_parent-fields none index table i = (refl, refl)
leave_parent-fields (some q) index table i = elim (Bool-cases (i == q)) [
  | inl here ↦ let e : i ≡ q = ==→eq i q here in rw (here, e) (refl, refl)
  | inr away ↦ rw away (refl, refl)
]

terminate_process-fields :
    (s : Processes) (p : ℕ)
    → (((terminate_process s p).processes p).initialized ≡ false)
      × ((i : ℕ) → i ≢ p → ((terminate_process s p).processes i).state ≡ (s.processes i).state)
unfolding terminate_process
terminate_process-fields s p =
    let ended = put_process s.processes p (record (s.processes p) { initialized = false }) in
    let parent = (s.processes p).parent in
    let index = (s.processes p).index_in_parent in
    let left = leave_parent parent index ended in
    let s' : Processes = record s { processes = left } in
    (
      drop_children-ended (left p).children s' p (
          (leave_parent-fields parent index ended p).1
          ∙ ap (λ x. x.initialized)
              (put_process_self s.processes p (record (s.processes p) { initialized = false }))),
      λ i ne.
          drop_children-state (left p).children s' i
          ∙ (leave_parent-fields parent index ended i).0
          ∙ ap (λ x. x.state)
              (put_process_ne s.processes p (record (s.processes p) { initialized = false }) i ne),
    )

-- The process is one of the children.
unfoldable pub has_child : ℕ → List (Option ℕ) → Bool
has_child p [] = false
has_child p (none ∷ children) = has_child p children
has_child p (some c ∷ children) = c == p || has_child p children

-- A child that has just become a zombie is the one that is found, where there was none.
first_zombie-put :
    (table : ℕ → Process) (p : ℕ) (x : Process) (children : List (Option ℕ))
    → is_state x.state zombie ≡ true
    → first_zombie table children ≡ none
    → has_child p children ≡ true
    → first_zombie (put_process table p x) children ≡ some p
unfolding first_zombie has_child
first_zombie-put table p x [] z none_yet has = cc
first_zombie-put table p x (none ∷ children) z none_yet has =
    first_zombie-put table p x children z none_yet has
first_zombie-put table p x (some c ∷ children) z none_yet has =
    elim (Bool-cases (is_state (table c).state zombie)) [
      | inl already ↦ let impossible : some c ≡ none = rw already at none_yet in cc
      | inr alive ↦
          let rest : first_zombie table children ≡ none = rw alive at none_yet in
          elim (Bool-cases (c == p)) [
            | inl here ↦ rw (here, z) (ap some (==→eq c p here))
            | inr away ↦
                let has' : has_child p children ≡ true = rw away at has in
                rw (away, alive) (first_zombie-put table p x children z rest has')
          ]
    ]

is_zombie : is_state zombie zombie ≡ true
unfolding is_state
is_zombie = refl

is_blocked : is_state blocked_waitpid blocked_waitpid ≡ true
unfolding is_state
is_blocked = refl

runs_not : is_state running blocked_waitpid ≡ false
unfolding is_state
runs_not = refl

wake-runs : (parent : Process) (id : ℕ) → (wake parent id).state ≡ running
unfolding wake
wake-runs parent id = refl

handle_waitpid-waits :
    (s : Processes) (q : ℕ)
    → first_zombie s.processes (s.processes q).children ≡ none
    → handle_waitpid s q ≡ record s {
      processes = put_process s.processes q (record (s.processes q) { state = blocked_waitpid });
    }
unfolding handle_waitpid
handle_waitpid-waits s q e = rw (e, handle_waitpid) refl

handle_waitpid-finds :
    (s : Processes) (q c : ℕ)
    → first_zombie s.processes (s.processes q).children ≡ some c
    → handle_waitpid s q ≡ terminate_process s c
unfolding handle_waitpid
handle_waitpid-finds s q c e = rw (e, handle_waitpid) refl

handle_waitpid_block-wakes :
    (s : Processes) (q p : ℕ)
    → (s.processes p).parent ≡ some q
    → is_state (s.processes q).state blocked_waitpid ≡ true
    → handle_waitpid_block s p
      ≡ terminate_process
          (record s {
            processes = put_process s.processes q (wake (s.processes q) (s.processes p).id);
          })
          p
unfolding handle_waitpid_block
handle_waitpid_block-wakes s q p e waits = rw (e, handle_waitpid_block, waits) refl

handle_waitpid_block-stays :
    (s : Processes) (q p : ℕ) (after : Processes)
    → (s.processes p).parent ≡ some q
    → is_state (s.processes q).state blocked_waitpid ≡ false
    → record s { processes = put_process s.processes p (record (s.processes p) { state = zombie }) }
      ≡ after
    → handle_waitpid_block s p ≡ after
unfolding handle_waitpid_block
handle_waitpid_block-stays s q p after e busy w = rw (e, handle_waitpid_block, busy) w

-- The process `q` is the parent of `p`, which it has as a child, and none of its children is a zombie.
pub record IsParent (s : Processes) (q p : ℕ) : Type 0 where
  pub other : q ≢ p
  pub parent : (s.processes p).parent ≡ some q
  pub child : has_child p (s.processes q).children ≡ true
  pub no_zombie : first_zombie s.processes (s.processes q).children ≡ none

-- The parent waits before the child ends, or the child ends before the parent, which runs, waits: in
-- both orders the child has ended and the parent runs.
pub handle_waitpid-handle_waitpid_block :
    (s : Processes) (q p : ℕ)
    → IsParent s q p
    → (s.processes q).state ≡ running
    → let first = handle_waitpid_block (handle_waitpid s q) p in
      let second = handle_waitpid (handle_waitpid_block s p) q in
      ((first.processes p).initialized ≡ false)
      × ((first.processes q).state ≡ running)
      × ((second.processes p).initialized ≡ false)
      × ((second.processes q).state ≡ running)
handle_waitpid-handle_waitpid_block s q p h runs =
    let p_ne_q : p ≢ q = λ e. h.other (sym e) in
    let blocked : Process = record (s.processes q) { state = blocked_waitpid } in
    let s1 : Processes = record s { processes = put_process s.processes q blocked } in
    let s1_q : s1.processes q ≡ blocked = put_process_self s.processes q blocked in
    let s1_p : s1.processes p ≡ s.processes p = put_process_ne s.processes q blocked p p_ne_q in
    let ended : Process = record (s.processes p) { state = zombie } in
    let s2 : Processes = record s { processes = put_process s.processes p ended } in
    let s2_q : s2.processes q ≡ s.processes q = put_process_ne s.processes p ended q h.other in
    let found : first_zombie s2.processes (s2.processes q).children ≡ some p = rw s2_q (
      first_zombie-put s.processes p ended (s.processes q).children is_zombie h.no_zombie
        h.child) in
    let awake = wake (s1.processes q) (s1.processes p).id in
    let s3 : Processes = record s1 { processes = put_process s1.processes q awake } in
    let first_ends = terminate_process-fields s3 p in
    let second_ends = terminate_process-fields s2 p in
    let first : handle_waitpid_block (handle_waitpid s q) p ≡ terminate_process s3 p =
      ap (λ z. handle_waitpid_block z p) (handle_waitpid-waits s q h.no_zombie)
      ∙ handle_waitpid_block-wakes s1 q p (ap (λ x. x.parent) s1_p ∙ h.parent)
          (ap (λ x. is_state x.state blocked_waitpid) s1_q ∙ is_blocked) in
    let second : handle_waitpid (handle_waitpid_block s p) q ≡ terminate_process s2 p =
      ap (λ z. handle_waitpid z q)
        (handle_waitpid_block-stays s q p s2 h.parent
          (ap (λ x. is_state x blocked_waitpid) runs ∙ runs_not) refl)
      ∙ handle_waitpid-finds s2 q p found in
    rw (first, second)
      (
        first_ends.0,
        first_ends.1 q h.other
            ∙ ap (λ x. x.state) (put_process_self s1.processes q awake)
            ∙ wake-runs (s1.processes q) (s1.processes p).id,
        second_ends.0,
        second_ends.1 q h.other ∙ ap (λ x. x.state) s2_q ∙ runs,
      )
