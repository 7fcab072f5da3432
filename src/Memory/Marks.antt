-- ===== src/Memory/Marks.antt =====
-- kalloc_frames where frames of the run may have to be mapped, which may allocate page tables.
use blueberry_os.Base.{
  ℕ, ◌+◌, ◌==◌, ◌≡◌, ◌≤◌, ◌<◌, refl, arith, ◌∙◌, sym, subst, true, false, Option-cases, inl, inr,
  Option, none, some,
}
use blueberry_os.Memory.{FrameMap, frame_at, kalloc_frames, take_run, mark_run}
use blueberry_os.Memory.Search.{FreeRun, find_run-start}
use blueberry_os.Memory.Grows.{Grows, mark_run-Grows}

-- The run from `start` on has been handed out: its address is `frame`, its frames are marked, and what
-- was marked before still is.
pub record HandedOut (s : FrameMap) (count start frame : ℕ) (s' : FrameMap) : Type 0 where
  pub address : frame ≡ frame_at s start
  pub marked : (i : ℕ) → start ≤ i → i < start + count → s'.frame_map i ≡ true
  pub grows : Grows s s'

abbrev HandsOut : FrameMap → ℕ → ℕ → Option (ℕ × FrameMap) → Type 0
HandsOut s count start none = Unit {0}
HandsOut s count start (some (frame, s')) = HandedOut s count start frame s'

take_run-HandsOut :
    (s : FrameMap) (count start : ℕ) → HandsOut s count start (take_run s count start)
unfolding take_run frame_at
take_run-HandsOut s count start = elim (Option-cases (mark_run count start s)) [
  | inl stops ↦ rw (stops, take_run) tt
  | inr (t, e) ↦
      let (g, marked) = mark_run-Grows count start s t e in
      rw (e, take_run)
        (record {
          address = rw (g.same_start) refl;
          marked = marked;
          grows = record { same_start = g.same_start; same_size = g.same_size; still = g.still };
        })
]

-- kalloc_frames of two frames or more, where the map has a free run of so many that does not reach
-- its end, whichever frames have to be mapped. If it returns, then it returns the first frame of a run
-- that was free, each frame of the run is marked, every frame that was marked still is, and the map
-- has its place and size.
pub kalloc_frames-HandedOut :
    (count : ℕ) (s : FrameMap) (st frame : ℕ) (s' : FrameMap)
    → 2 ≤ count
    → FreeRun s.frame_map s.frame_map_size count st
    → kalloc_frames count s ≡ some (frame, s')
    → (start : ℕ) × FreeRun s.frame_map s.frame_map_size count start
      × HandedOut s count start frame s'
unfolding kalloc_frames
kalloc_frames-HandedOut count s st frame s' many run e =
    let (start, found, good) = find_run-start s.frame_map s.frame_map_size count st many run in
    let not_zero : (count == 0) ≡ false = ground arith in
    let not_one : (count == 1) ≡ false = ground arith in
    let took : take_run s count start ≡ some (frame, s') =
      sym (rw (not_zero, not_one, found, kalloc_frames) refl) ∙ e in
    (start, good, subst (λ o. HandsOut s count start o) took (take_run-HandsOut s count start))
