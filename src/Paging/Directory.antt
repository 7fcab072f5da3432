-- ===== src/Paging/Directory.antt =====
-- Page directories whose page tables are frames of their own, and the addresses of their entries.
use blueberry_os.Base.{ℕ, ◌+◌, ◌*◌, ◌/◌, ◌%◌, ◌^◌, ◌≡◌, ◌≢◌, ◌<◌, arith, true}
use blueberry_os.Paging.{
  Words, entry, set_entry, present, pti, pi, get_pagetable, v_to_p, clear_frame, page_address,
}

-- The table of the page directory at an index.
abbrev pub table_at : Words → ℕ → ℕ → ℕ
table_at w pd i = get_pagetable (entry w pd i)

-- The address of a page frame.
pub record IsFrame (frame : ℕ) : Type 0 where
  pub aligned : frame % 4096 ≡ 0
  pub below : frame < 2 ^ 32

-- No page table is the directory itself, and no two entries have one page table.
pub record IsDirectory (w : Words) (pd : ℕ) : Type 0 where
  pub frame : IsFrame pd
  pub apart : (i : ℕ) → i < 1024 → present (entry w pd i) ≡ true → table_at w pd i ≢ pd
  pub distinct :
      (i j : ℕ)
      → i < 1024
      → j < 1024
      → i ≢ j
      → present (entry w pd i) ≡ true
      → present (entry w pd j) ≡ true
      → table_at w pd i ≢ table_at w pd j

-- A frame that is neither the directory nor one of its tables.
pub record IsUnused (w : Words) (pd f : ℕ) : Type 0 where
  pub frame : IsFrame f
  pub other : f ≢ pd
  pub no_table : (i : ℕ) → i < 1024 → present (entry w pd i) ≡ true → table_at w pd i ≢ f

pub get_pagetable-IsFrame : (e : ℕ) → IsFrame (get_pagetable e)
unfolding get_pagetable
get_pagetable-IsFrame e = record { aligned = omega arith; below = omega arith }

-- What stands in the directory for a table with flags leads back to the table.
pub get_pagetable-v_to_p :
    (table flags : ℕ) → IsFrame table → flags < 4096 → get_pagetable (v_to_p table + flags) ≡ table
unfolding get_pagetable
get_pagetable-v_to_p table flags f small = let a = f.aligned in let b = f.below in omega arith

pub present-v_to_p :
    (table flags : ℕ) → IsFrame table → present flags ≡ true → present (v_to_p table + flags) ≡ true
present-v_to_p table flags f p = let a = f.aligned in let b = f.below in ground arith

-- Entries of two frames are at two addresses.
pub apart-entry :
    (f g i j : ℕ) → IsFrame f → IsFrame g → f ≢ g → i < 1024 → j < 1024 → f + 4 * i ≢ g + 4 * j
apart-entry f g i j hf hg ne hi hj e = let a = hf.aligned in let b = hg.aligned in ne (omega arith)

pub set_entry_self : (w : Words) (f i value : ℕ) → entry (set_entry w f i value) f i ≡ value
set_entry_self w f i value = ground arith

pub set_entry_index :
    (w : Words) (f i j value : ℕ) → i ≢ j → entry (set_entry w f i value) f j ≡ entry w f j
set_entry_index w f i j value ne = ground arith

pub set_entry_other :
    (w : Words) (f g i j value : ℕ)
    → IsFrame f
    → IsFrame g
    → f ≢ g
    → i < 1024
    → j < 1024
    → entry (set_entry w f i value) g j ≡ entry w g j
set_entry_other w f g i j value hf hg ne hi hj =
    let d = apart-entry f g i j hf hg ne hi hj in ground arith

pub clear_frame_inside : (w : Words) (f i : ℕ) → i < 1024 → entry (clear_frame w f) f i ≡ 0
unfolding clear_frame
clear_frame_inside w f i h = ground arith

pub clear_frame_other :
    (w : Words) (f g i : ℕ)
    → IsFrame f
    → IsFrame g
    → f ≢ g
    → i < 1024
    → entry (clear_frame w f) g i ≡ entry w g i
unfolding clear_frame
clear_frame_other w f g i hf hg ne h = let a = hf.aligned in let b = hg.aligned in ground arith

pub pti_below : (v : ℕ) → v < 2 ^ 32 → pti v < 1024
pti_below v h = omega arith

pub pi_below : (v : ℕ) → pi v < 1024
pi_below v = omega arith

-- Two addresses with both indices in common are in one page.
pub same_page : (v u : ℕ) → pti v ≡ pti u → pi v ≡ pi u → v / 4096 ≡ u / 4096
same_page v u a b = omega arith

pub page_address_lem : (p : ℕ) → page_address p ≡ p / 4096 * 4096
page_address_lem p = omega arith
