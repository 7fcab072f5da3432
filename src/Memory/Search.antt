-- ===== src/Memory/Search.antt =====
-- The search of kalloc_frames for a run of free frames.
use blueberry_os.Base.{
  ℕ, zero, suc, ◌+◌, ◌==◌, ◌≡◌, ◌≢◌, ◌≤◌, ◌<◌, refl, arith, false, leb, ltb, if◌then◌else◌,
  Bool-cases, inl, inr, none, some,
}
use blueberry_os.Memory.{Bits, find_run}

-- The `count` frames from `start` on are free and lie within the map, and not at its end.
pub record FreeRun (bits : Bits) (size count start : ℕ) : Type 0 where
  pub within : start + count < size
  pub free : (i : ℕ) → start ≤ i → i < start + count → bits i ≡ false

-- What the loop has found when it stands at `index`.
record Counted (bits : Bits) (index cons start : ℕ) : Type 0 where
  run : (cons ≢ 0) → start + cons ≡ index
  free : (i : ℕ) → index ≤ i + cons → i < index → bits i ≡ false

run-next :
    (cons start index : ℕ)
    → ((cons ≢ 0) → start + cons ≡ index)
    → (if cons == 0 then index else start) + (cons + 1) ≡ index + 1
run-next cons start index run = ground arith

free-next :
    (bits : Bits) (index cons i : ℕ)
    → ((j : ℕ) → index ≤ j + cons → j < index → bits j ≡ false)
    → bits index ≡ false
    → index + 1 ≤ i + (cons + 1)
    → i < index + 1
    → bits i ≡ false
free-next bits index cons i free unused lo hi = elim (Bool-cases (i == index)) [
  | inl last ↦ let e : i ≡ index = ground arith in rw e unused
  | inr earlier ↦ free i (omega arith) (ground arith)
]

Counted-next :
    (bits : Bits) (index cons start : ℕ)
    → Counted bits index cons start
    → Counted bits
        (index + 1)
        (if bits index then 0 else cons + 1)
        (if bits index then start else if cons == 0 then index else start)
Counted-next bits index cons start h = elim (Bool-cases (bits index)) [
  | inl used ↦
      rw used (record { run = λ ne. absurd (ne refl); free = λ i lo hi. absurd (omega arith) })
  | inr unused ↦
      let run = h.run in
      let free = h.free in
      rw unused (record {
        run = λ ne. run-next cons start index run;
        free = λ i lo hi. free-next bits index cons i free unused lo hi;
      })
]

near-next :
    (bits : Bits) (size count index cons st : ℕ)
    → FreeRun bits size count st
    → index ≤ st + cons
    → cons < count
    → index + 1 ≤ st + (if bits index then 0 else cons + 1)
near-next bits size count index cons st run near fewer = elim (Bool-cases (bits index)) [
  | inr unused ↦ rw unused (omega arith)
  | inl used ↦ elim (Bool-cases (ltb index st)) [
    | inl ahead ↦ rw used (ground arith)
    | inr inside ↦
        let unused : bits index ≡ false = run.free index (ground arith) (omega arith) in cc
  ]
]

find_run-step :
    (n : ℕ) (bits : Bits) (size count index cons start : ℕ)
    → find_run (suc n) bits size count index cons start ≡ (
        if cons == count
        then some start
        else if leb size (index + 1)
        then none
        else find_run n bits size count
            (index + 1)
            (if bits index then 0 else cons + 1)
            (if bits index then start else if cons == 0 then index else start))
unfolding find_run
find_run-step n bits size count index cons start = refl

-- The loop, with enough rounds left, finds a run where there is one that it has not passed yet.
find_run-FreeRun :
    (n : ℕ) (bits : Bits) (size count index cons start : ℕ)
    → Counted bits index cons start
    → count ≢ 0
    → cons ≤ count
    → index < size
    → size ≤ n + index
    → (st : ℕ) → FreeRun bits size count st
    → index ≤ st + cons
    → (found : ℕ) × (find_run (suc n) bits size count index cons start ≡ some found)
      × FreeRun bits size count found
find_run-FreeRun zero bits size count index cons start h some_wanted least small enough st run
      near =
    absurd (omega arith)
find_run-FreeRun (suc n) bits size count index cons start h some_wanted least small enough st run
      near =
    let within = run.within in
    let next =
      find_run-FreeRun n bits size count (index + 1) (if bits index then 0 else cons + 1)
        (if bits index then start else if cons == 0 then index else start)
        (Counted-next bits index cons start h) some_wanted in
    elim (Bool-cases (cons == count)) [
      | inl long ↦
          let all : cons ≡ count = ground arith in
          let here : start + cons ≡ index = h.run (rw all some_wanted) in
          (
            start,
            rw (find_run-step (suc n) bits size count index cons start, long) refl,
            record { within = omega arith; free = λ i lo hi. h.free i (omega arith) (omega arith) },
          )
      | inr short ↦
          let fewer : cons < count = ground arith in
          let goes_on : leb size (index + 1) ≡ false = ground arith in
          let (found, e, good) =
            next (ground arith) (omega arith) (omega arith) st run
              (near-next bits size count index cons st run near fewer) in
          (
            found,
            rw (find_run-step (suc n) bits size count index cons start, short, goes_on) e,
            good,
          )
    ]

-- The search of kalloc_frames from the start of the map.
pub find_run-start :
    (bits : Bits) (size count st : ℕ)
    → 2 ≤ count
    → FreeRun bits size count st
    → (found : ℕ) × (find_run (suc size) bits size count 0 0 0 ≡ some found)
      × FreeRun bits size count found
find_run-start bits size count st many run =
    let within = run.within in
    let none_yet : Counted bits 0 0 0 = record {
      run = λ ne. absurd (ne refl);
      free = λ i lo hi. absurd (omega arith);
    } in
    find_run-FreeRun size bits size count 0 0 0 none_yet (λ zero_wanted. omega arith) (omega arith)
      (omega arith) (omega arith) st run (omega arith)
