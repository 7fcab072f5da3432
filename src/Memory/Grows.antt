-- ===== src/Memory/Grows.antt =====
-- What an allocation of page frames keeps, whatever mapPageframe has to map on the way: a frame that is
-- marked stays marked.
use blueberry_os.Base.{
  ℕ, zero, suc, ◌+◌, ◌-◌, ◌==◌, ◌≡◌, ◌≤◌, ◌<◌, refl, arith, ◌∙◌, sym, subst, Bool, true, false, leb,
  if◌then◌else◌, Bool-cases, Option-cases, inl, inr, Option, none, some, add32, List, [], ◌∷◌,
}
use blueberry_os.PageTable.{
  Alloc, present, entry, pti, get_page, table_or_cleared, map_page_pd, map_in_all, map_everywhere,
  map_pageframe, map_absent, v_to_p,
}
use blueberry_os.Memory.{
  FrameMap, set_bit, frame_at, skip_used, cache_loop, kalloc_cache, kalloc_within, kalloc_frame,
  take_cached, mark_run,
}

-- The map has the same place and size, and what is marked stays marked.
pub record Grows (before after : FrameMap) : Type 0 where
  pub same_start : after.framestart ≡ before.framestart
  pub same_size : after.frame_map_size ≡ before.frame_map_size
  pub still : (i : ℕ) → before.frame_map i ≡ true → after.frame_map i ≡ true

-- The outcome, if there is one.
abbrev pub GrowsTo : FrameMap → Option FrameMap → Type 0
GrowsTo s none = Unit {0}
GrowsTo s (some t) = Grows s t

abbrev pub GrowsWith : FrameMap → Option (ℕ × FrameMap) → Type 0
GrowsWith s none = Unit {0}
GrowsWith s (some (f, t)) = Grows s t

pub Grows-refl : (s : FrameMap) → Grows s s
Grows-refl s = record { same_start = refl; same_size = refl; still = λ i h. h }

pub Grows-trans : {a b c : FrameMap} → Grows a b → Grows b c → Grows a c
Grows-trans p q = record {
  same_start = q.same_start ∙ p.same_start;
  same_size = q.same_size ∙ p.same_size;
  still = λ i h. q.still i (p.still i h);
}

-- A step behind one that has an outcome.
GrowsTo-trans : {a b : FrameMap} (o : Option FrameMap) → Grows a b → GrowsTo b o → GrowsTo a o
GrowsTo-trans none p q = tt
GrowsTo-trans (some t) p q = Grows-trans p q

GrowsWith-trans :
    {a b : FrameMap} (o : Option (ℕ × FrameMap)) → Grows a b → GrowsWith b o → GrowsWith a o
GrowsWith-trans none p q = tt
GrowsWith-trans (some (f, t)) p q = Grows-trans p q

module _ (alloc : Alloc) (keeps : (s : FrameMap) → GrowsWith s (alloc s)) where
  pub table_or_cleared-GrowsWith :
      (pd index : ℕ) (s : FrameMap) → GrowsWith s (table_or_cleared alloc pd index s)
  unfolding table_or_cleared
  table_or_cleared-GrowsWith pd index s = elim (Bool-cases (present (entry s.words pd index))) [
    | inl live ↦ rw live (Grows-refl s)
    | inr gone ↦ elim (Option-cases (alloc s)) [
      | inl e ↦ rw (gone, e, table_or_cleared) tt
      | inr ((f, s'), e) ↦
          let g : Grows s s' = subst (λ o. GrowsWith s o) e (keeps s) in
          rw (gone, e, table_or_cleared)
            (record { same_start = g.same_start; same_size = g.same_size; still = g.still })
    ]
  ]

  pub map_page_pd-GrowsTo :
      (pd p v : ℕ) (writable kernel : Bool) (s : FrameMap)
      → GrowsTo s (map_page_pd alloc pd p v writable kernel s)
  unfolding map_page_pd
  map_page_pd-GrowsTo pd p v writable kernel s =
      elim (Option-cases (table_or_cleared alloc pd (pti v) s)) [
        | inl e ↦ rw (e, map_page_pd) tt
        | inr ((table, s'), e) ↦
            let g : Grows s s' =
              subst (λ o. GrowsWith s o) e (table_or_cleared-GrowsWith pd (pti v) s) in
            rw (e, map_page_pd)
              (record { same_start = g.same_start; same_size = g.same_size; still = g.still })
      ]

  -- The outcome of mapPageframe over the processes, whether it came to the end or not.
  abbrev pub GrowsOver : FrameMap → Option (Bool × FrameMap) → Type 0
  GrowsOver s none = Unit {0}
  GrowsOver s (some (b, t)) = Grows s t

  GrowsOver-trans :
      {a b : FrameMap} (o : Option (Bool × FrameMap)) → Grows a b → GrowsOver b o → GrowsOver a o
  GrowsOver-trans none p q = tt
  GrowsOver-trans (some (b, t)) p q = Grows-trans p q

  pub map_in_all-GrowsOver :
      (processes : List (Option ℕ)) (pf : ℕ) (s : FrameMap)
      → GrowsOver s (map_in_all alloc processes pf s)
  unfolding map_in_all
  map_in_all-GrowsOver [] pf s = Grows-refl s
  map_in_all-GrowsOver (none ∷ processes) pf s = Grows-refl s
  map_in_all-GrowsOver (some pd ∷ processes) pf s =
      elim (Option-cases (map_page_pd alloc pd (v_to_p pf) pf true true s)) [
        | inl e ↦ rw (e, map_in_all) tt
        | inr (s', e) ↦
            rw (e, map_in_all)
              (GrowsOver-trans (map_in_all alloc processes pf s')
                (subst (λ o. GrowsTo s o) e (map_page_pd-GrowsTo pd (v_to_p pf) pf true true s))
                (map_in_all-GrowsOver processes pf s'))
      ]

  pub map_everywhere-GrowsOver : (pf : ℕ) (s : FrameMap) → GrowsOver s (map_everywhere alloc pf s)
  unfolding map_everywhere
  map_everywhere-GrowsOver pf s =
      elim (Option-cases (map_page_pd alloc s.page_directory (v_to_p pf) pf true true s)) [
        | inl e ↦ rw (e, map_everywhere) tt
        | inr (s', e) ↦
            rw (e, map_everywhere)
              (GrowsOver-trans (map_in_all alloc s'.processes pf s')
                (subst (λ o. GrowsTo s o) e
                  (map_page_pd-GrowsTo s.page_directory (v_to_p pf) pf true true s))
                (map_in_all-GrowsOver s'.processes pf s'))
      ]

  map_pageframe-GrowsTo : (pf : ℕ) (s : FrameMap) → GrowsTo s (map_pageframe alloc pf s)
  unfolding map_pageframe
  map_pageframe-GrowsTo pf s = elim (Option-cases (map_everywhere alloc pf s)) [
    | inl e ↦ rw (e, map_pageframe) tt
    | inr ((false, s'), e) ↦
        rw (e, map_pageframe) (subst (λ o. GrowsOver s o) e (map_everywhere-GrowsOver pf s))
    | inr ((true, s'), e) ↦
        let g : Grows s s' = subst (λ o. GrowsOver s o) e (map_everywhere-GrowsOver pf s) in
        elim (Option-cases (map_everywhere alloc (add32 pf 4096) s')) [
          | inl e' ↦ rw (e, e', map_pageframe) tt
          | inr ((b, s''), e') ↦
              rw (e, e', map_pageframe)
                (Grows-trans g
                  (subst (λ o. GrowsOver s' o) e' (map_everywhere-GrowsOver (add32 pf 4096) s')))
        ]
  ]

  pub map_absent-GrowsTo : (pf : ℕ) (s : FrameMap) → GrowsTo s (map_absent alloc pf s)
  unfolding map_absent
  map_absent-GrowsTo pf s = elim (Bool-cases (present (get_page s.words s.page_directory pf))) [
    | inl live ↦ rw live (Grows-refl s)
    | inr gone ↦ rw gone (map_pageframe-GrowsTo pf s)
  ]

  cache_loop-GrowsTo :
      (left c index : ℕ) (s : FrameMap) → GrowsTo s (cache_loop alloc left c index s)
  unfolding cache_loop
  cache_loop-GrowsTo zero c index s = Grows-refl s
  cache_loop-GrowsTo (suc left) c index s =
      elim (Option-cases (skip_used (s.frame_map_size - index) s.frame_map index)) [
        | inl full ↦ elim (Bool-cases (c == 0)) [
          | inl first ↦ rw (full, cache_loop, first) tt
          | inr later ↦ rw (full, cache_loop, later) (Grows-refl s)
        ]
        | inr (i, found) ↦
            let t : FrameMap = record s {
              frame_map = set_bit s.frame_map i true;
              cached_frame_map = λ k. if k == c then frame_at s i else s.cached_frame_map k;
            } in
            elim (Option-cases (map_absent alloc (frame_at s i) t)) [
              | inl e ↦ rw (found, e, cache_loop) tt
              | inr (s', e) ↦
                  let u : FrameMap = record s' { frame_cache_size = s'.frame_cache_size + 1 } in
                  let g : Grows t s' =
                    subst (λ o. GrowsTo t o) e (map_absent-GrowsTo (frame_at s i) t) in
                  let h : Grows s u = record {
                    same_start = g.same_start;
                    same_size = g.same_size;
                    still = λ j m. g.still j (ground (arith, m));
                  } in
                  rw (found, e, cache_loop)
                    (GrowsTo-trans (cache_loop alloc left (c + 1) i u) h
                      (cache_loop-GrowsTo left (c + 1) i u))
            ]
      ]

take_cached-Grows : (s : FrameMap) → Grows s (take_cached s).1
unfolding take_cached
take_cached-Grows s = record { same_start = refl; same_size = refl; still = λ i h. h }

pub kalloc_within-GrowsWith : (n : ℕ) (s : FrameMap) → GrowsWith s (kalloc_within n s)
unfolding kalloc_within kalloc_cache
kalloc_within-GrowsWith zero s = tt
kalloc_within-GrowsWith (suc n) s = elim (Bool-cases (leb s.frame_cache_size s.cached_index)) [
  | inr more ↦ rw (more, kalloc_within) (take_cached-Grows s)
  | inl spent ↦
      let alloc = kalloc_within n in
      let empty : FrameMap = record s { cached_index = 0; frame_cache_size = 0 } in
      let filled =
        cache_loop-GrowsTo alloc (kalloc_within-GrowsWith n) s.frame_cache_count 0 0 empty in
      elim (Option-cases (cache_loop alloc s.frame_cache_count 0 0 empty)) [
        | inl e ↦ rw (spent, e, kalloc_within, kalloc_cache) tt
        | inr (s', e) ↦
            let g : Grows empty s' = subst (λ o. GrowsTo empty o) e filled in
            let h : Grows s s' = record {
              same_start = g.same_start;
              same_size = g.same_size;
              still = g.still;
            } in
            rw (spent, e, kalloc_within, kalloc_cache) (Grows-trans h (take_cached-Grows s'))
      ]
]

kalloc_frame-GrowsWith : (s : FrameMap) → GrowsWith s (kalloc_frame s)
unfolding kalloc_frame
kalloc_frame-GrowsWith s = kalloc_within-GrowsWith (suc s.frame_map_size) s

-- The frames of the run are marked behind the loop.
pub mark_run-Grows :
    (n i : ℕ) (s s' : FrameMap)
    → mark_run n i s ≡ some s'
    → Grows s s' × ((j : ℕ) → i ≤ j → j < i + n → s'.frame_map j ≡ true)
unfolding mark_run
mark_run-Grows zero i s s' e =
    (subst (λ o. GrowsTo s o) e (Grows-refl s), λ j lo hi. absurd (omega arith))
mark_run-Grows (suc n) i s s' e =
    let t : FrameMap = record s { frame_map = set_bit s.frame_map i true } in
    let first = map_absent-GrowsTo kalloc_frame kalloc_frame-GrowsWith (frame_at s i) t in
    elim (Option-cases (map_absent kalloc_frame (frame_at s i) t)) [
      | inl stops ↦ absurd (ground (arith, rw (stops, mark_run) at e))
      | inr (u, goes) ↦
          let g : Grows t u = subst (λ o. GrowsTo t o) goes first in
          let (rest, marked) = mark_run-Grows n (i + 1) u s' (sym (rw (goes, mark_run) refl) ∙ e) in
          let h : Grows s u = record {
            same_start = g.same_start;
            same_size = g.same_size;
            still = λ j m. g.still j (ground (arith, m));
          } in
          (
            Grows-trans h rest,
            λ j lo hi. elim (Bool-cases (i == j)) [
              | inl same ↦ rest.still j (g.still j (ground arith))
              | inr later ↦ marked j (ground arith) (omega arith)
            ],
          )
    ]
