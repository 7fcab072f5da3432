-- ===== src/Paging/Map.antt =====
-- map_page_pd and its variants: the page directory as a map from pages to their entries.
use blueberry_os.Base.{
  ℕ, ◌+◌, ◌/◌, ◌^◌, ◌==◌, ◌≡◌, ◌≢◌, ◌<◌, refl, true, false, if◌then◌else◌, inl, inr, Bool-cases,
  sym, ◌∙◌, none, some,
}
use blueberry_os.Paging.{
  Words, entry, set_entry, present, pti, pi, get_page, v_to_p, page_address, enter_page,
}
use blueberry_os.Paging.Directory.{
  table_at, IsFrame, get_pagetable-v_to_p, present-v_to_p, set_entry_self, set_entry_index,
  set_entry_other, pti_below, pi_below,
}

-- What enters one page: the entry of `v` leads to the table, the page's entry in it is `e`, and no
-- other entry of the directory, the table or another frame has changed.
pub record Entered (w : Words) (pd table v e : ℕ) (w' : Words) : Type 0 where
  pub leads : present (entry w' pd (pti v)) ≡ true
  pub leads_to : table_at w' pd (pti v) ≡ table
  pub same_tables : (j : ℕ) → j < 1024 → pti v ≢ j → entry w' pd j ≡ entry w pd j
  pub page : entry w' table (pi v) ≡ e
  pub same_pages : (j : ℕ) → j < 1024 → pi v ≢ j → entry w' table j ≡ entry w table j
  pub same_frames :
      (g j : ℕ) → IsFrame g → table ≢ g → pd ≢ g → j < 1024 → entry w' g j ≡ entry w g j

module _ (w : Words) (pd table p v flags : ℕ) (hpd : IsFrame pd) (ht : IsFrame table)
    (ne : table ≢ pd) (low : v < 2 ^ 32) where
  let_in : Words
  let_in = set_entry w table (pi v) (page_address p + flags)

  let_in_directory : (j : ℕ) → j < 1024 → entry let_in pd j ≡ entry w pd j
  unfolding let_in
  let_in_directory j h =
      set_entry_other w table pd (pi v) j (page_address p + flags) ht hpd ne (pi_below v) h

  pub enter_page_keep :
      present (entry w pd (pti v)) ≡ true
      → table_at w pd (pti v) ≡ table
      → Entered w pd table v (page_address p + flags) (enter_page pd table p v flags none w)
  unfolding enter_page let_in
  enter_page_keep live to =
      let same = let_in_directory (pti v) (pti_below v low) in
      record {
        leads = rw same live;
        leads_to = rw same to;
        same_tables = λ j h d. let_in_directory j h;
        page = set_entry_self w table (pi v) (page_address p + flags);
        same_pages = λ j h d. set_entry_index w table (pi v) j (page_address p + flags) d;
        same_frames = λ g j hg d d2 h.
            set_entry_other w table g (pi v) j (page_address p + flags) ht hg d (pi_below v) h;
      }

  pub enter_page_link :
      (tflags : ℕ)
      → present tflags ≡ true
      → tflags < 4096
      → Entered w pd table v
          (page_address p + flags)
          (enter_page pd table p v flags (some tflags) w)
  unfolding enter_page let_in
  enter_page_link tflags live small =
      let value = v_to_p table + tflags in
      let self = set_entry_self let_in pd (pti v) value in
      let behind : (j : ℕ)
          → j < 1024
          → entry (set_entry let_in pd (pti v) value) table j ≡ entry let_in table j =
        λ j h.
          set_entry_other let_in pd table (pti v) j value hpd ht (λ e. ne (sym e)) (pti_below v low)
            h in
      record {
        leads = rw self (present-v_to_p table tflags ht live);
        leads_to = rw self (get_pagetable-v_to_p table tflags ht small);
        same_tables = λ j h d. set_entry_index let_in pd (pti v) j value d ∙ let_in_directory j h;
        page = behind (pi v) (pi_below v) ∙ set_entry_self w table (pi v) (page_address p + flags);
        same_pages =
            λ j h d. behind j h ∙ set_entry_index w table (pi v) j (page_address p + flags) d;
        same_frames = λ g j hg d d2 h.
            set_entry_other let_in pd g (pti v) j value hpd hg d2 (pti_below v low) h
            ∙ set_entry_other w table g (pi v) j (page_address p + flags) ht hg d (pi_below v) h;
      }

-- The page directory as a map from addresses to entries, with the page of `v` mapped to `e`.
abbrev pub map_at : (ℕ → ℕ) → ℕ → ℕ → ℕ → ℕ
map_at space v e u = if u / 4096 == v / 4096 then e else space u

pub get_page_live :
    (w : Words) (pd u table : ℕ)
    → present (entry w pd (pti u)) ≡ true
    → table_at w pd (pti u) ≡ table
    → get_page w pd u ≡ entry w table (pi u)
unfolding get_page
get_page_live w pd u table live to = rw (live, to) refl

pub get_page_gone :
    (w : Words) (pd u : ℕ) → present (entry w pd (pti u)) ≡ false → get_page w pd u ≡ 0
unfolding get_page
get_page_gone w pd u gone = rw gone refl

-- Where the directory has the same entry for an address and the table has the same page, the
-- address is mapped as before.
pub get_page_same :
    (w w' : Words) (pd u : ℕ)
    → entry w' pd (pti u) ≡ entry w pd (pti u)
    → (present (entry w pd (pti u)) ≡ true
        → entry w' (table_at w pd (pti u)) (pi u) ≡ entry w (table_at w pd (pti u)) (pi u))
    → get_page w' pd u ≡ get_page w pd u
get_page_same w w' pd u same inside = elim (Bool-cases (present (entry w pd (pti u)))) [
  | inl live ↦
      get_page_live w' pd u (table_at w pd (pti u)) (rw same live) (rw same refl)
      ∙ inside live
      ∙ sym (get_page_live w pd u (table_at w pd (pti u)) live refl)
  | inr gone ↦ get_page_gone w' pd u (rw same gone) ∙ sym (get_page_gone w pd u gone)
]
