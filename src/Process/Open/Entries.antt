-- ===== src/Process/Open/Entries.antt =====
-- usermode.c: getDirectoryEntries. The structures that it fills in are a list; `d_ino`, `d_off` and
-- `d_reclen` are the same in each. A name has at most 65 bytes, so it is copied whole.
use blueberry_os.Base.{
  ℕ, zero, suc, ◌+◌, ◌-◌, ◌*◌, ◌/◌, ◌^◌, ◌≡◌, ◌≤◌, ◌<◌, refl, arith, not, ltb, if◌then◌else◌,
  Option, none, some, List, [], ◌∷◌, ◌++◌, map, length, get_elem?, take, drop, u32, add32, sub32,
  flag, inl, inr, Bool-cases, sym, ◌∙◌, ap,
}
use blueberry_os.FileTree.{Text, Directory, Tree}
use blueberry_os.Process.Files.{get_process_pfd, o_directory}
use blueberry_os.Process.Open.{Opening}

pub record Dirent : Type 0 where
  pub d_type : ℕ
  pub d_name : Text

abbrev pub dt_dir : ℕ
dt_dir = 1

abbrev pub dt_reg : ℕ
dt_reg = 2

-- `sizeof(struct dirent)`, with one byte that fills it up.
abbrev pub dirent_size : ℕ
dirent_size = 268

abbrev pub dir_entry : Tree → ℕ → Dirent
dir_entry t d = record { d_type = dt_dir; d_name = (t.dirs d).name }

abbrev pub file_entry : Tree → ℕ → Dirent
file_entry t f = record { d_type = dt_reg; d_name = (t.nodes f).name }

unfoldable pub entry_of : {A : Type 0} → (A → Dirent) → Option A → Option Dirent
entry_of f none = none
entry_of f (some a) = some (f a)

-- What the round `i` fills in.
unfoldable pub entry_at : Tree → Directory → ℕ → ℕ → Option Dirent
entry_at t dir start i =
    if ltb (add32 start i) (length dir.directories)
    then entry_of (dir_entry t) (get_elem? dir.directories (add32 start i))
    else if ltb (u32 (sub32 start (length dir.directories) + i)) (length dir.files)
    then entry_of (file_entry t)
        (get_elem? dir.files (u32 (sub32 start (length dir.directories) + i)))
    else none

-- `break` where there is no entry any more.
unfoldable pub until_none : Option Dirent → List Dirent → List Dirent
until_none none rest = []
until_none (some e) rest = e ∷ rest

-- The loop from round `i` on, with `n` rounds left.
unfoldable pub entries : ℕ → Tree → Directory → ℕ → ℕ → List Dirent
entries zero t dir start i = []
entries (suc n) t dir start i =
    let rest = entries n t dir start (i + 1) in until_none (entry_at t dir start i) rest

-- -1, or the entries, the bytes they take, and the base for the next call.
pub data Listed : Type 0 where
  unlisted : Listed
  listed : List Dirent → ℕ → ℕ → Listed

unfoldable pub list_directory : Tree → Directory → ℕ → ℕ → Listed
list_directory t dir nbytes base =
    let found = entries (nbytes / dirent_size) t dir (base / dirent_size) 0 in
    listed found (length found * dirent_size) (add32 base (length found * dirent_size))

unfoldable pub get_directory_entries : Opening → ℕ → ℕ → ℕ → Listed
get_directory_entries s fd nbytes base = elim (get_process_pfd fd) [
  | none ↦ unlisted
  | some i ↦ elim (get_elem? s.pfds i) [
    | none ↦ unlisted
    | some pfd ↦
        if not (flag pfd.flags o_directory)
        then unlisted
        else list_directory s.tree (s.tree.dirs pfd.pointer) nbytes base
  ]
]

-- All that the directory has, the directories first.
unfoldable pub listing : Tree → Directory → List Dirent
listing t dir = map (dir_entry t) dir.directories ++ map (file_entry t) dir.files

get_elem?-map :
    {A : Type 0} (f : A → Dirent) (xs : List A) (i : ℕ)
    → get_elem? (map f xs) i ≡ entry_of f (get_elem? xs i)
unfolding entry_of
get_elem?-map f [] i = refl
get_elem?-map f (x ∷ xs) zero = refl
get_elem?-map f (x ∷ xs) (suc i) = get_elem?-map f xs i

length-map : {A : Type 0} (f : A → Dirent) (xs : List A) → length (map f xs) ≡ length xs
length-map f [] = refl
length-map f (x ∷ xs) = ap suc (length-map f xs)

get_elem?_front :
    (xs ys : List Dirent) (i : ℕ) → i < length xs → get_elem? (xs ++ ys) i ≡ get_elem? xs i
get_elem?_front [] ys i h = elim h [ ]
get_elem?_front (x ∷ xs) ys zero h = refl
get_elem?_front (x ∷ xs) ys (suc i) h = get_elem?_front xs ys i (omega arith)

get_elem?_back :
    (xs ys : List Dirent) (i : ℕ) → get_elem? (xs ++ ys) (length xs + i) ≡ get_elem? ys i
get_elem?_back [] ys i = let same : 0 + i ≡ i = omega arith in ap (λ x. get_elem? ys x) same
get_elem?_back (x ∷ xs) ys i =
    let same : suc (length xs) + i ≡ suc (length xs + i) = omega arith in
    ap (λ k. get_elem? (x ∷ xs ++ ys) k) same ∙ get_elem?_back xs ys i

get_elem?_past : {A : Type 0} (xs : List A) (i : ℕ) → length xs ≤ i → get_elem? xs i ≡ none
get_elem?_past [] i h = refl
get_elem?_past (x ∷ xs) zero h = elim h [ ]
get_elem?_past (x ∷ xs) (suc i) h = get_elem?_past xs i (omega arith)

take-drop :
    (n j : ℕ) (xs : List Dirent)
    → take (suc n) (drop j xs) ≡ until_none (get_elem? xs j) (take n (drop (j + 1) xs))
unfolding until_none
take-drop n zero [] = refl
take-drop n (suc j) [] = refl
take-drop n zero (x ∷ xs) = refl
take-drop n (suc j) (x ∷ xs) =
    let same : suc j + 1 ≡ suc (j + 1) = omega arith in
    take-drop n j xs ∙ ap (λ k. until_none (get_elem? xs j) (take n (drop k (x ∷ xs)))) (sym same)

module _ (t : Tree) (dir : Directory) (few : length dir.directories ≤ 32)
    (few_files : length dir.files ≤ 32) where
  entry_at-listing :
      (start i : ℕ)
      → start + i < 2 ^ 31
      → entry_at t dir start i ≡ get_elem? (listing t dir) (start + i)
  unfolding entry_at listing entry_of
  entry_at-listing start i small =
      let dirs = map (dir_entry t) dir.directories in
      let files = map (file_entry t) dir.files in
      let at_i : add32 start i ≡ start + i = omega arith in
      let size = length-map (dir_entry t) dir.directories in
      elim (Bool-cases (ltb (start + i) (length dir.directories))) [
        | inl front ↦
            rw (at_i, front)
              (sym (
                get_elem?_front dirs files (start + i) (ground (arith, size, front))
                ∙ get_elem?-map (dir_entry t) dir.directories (start + i)))
        | inr back ↦
            let k = start + i - length dir.directories in
            let split : start + i ≡ length dirs + k = ground (arith, size, back) in
            let at_k : u32 (sub32 start (length dir.directories) + i) ≡ k = ground (arith, back) in
            let found : get_elem? (dirs ++ files) (start + i)
                ≡ entry_of (file_entry t) (get_elem? dir.files k) =
              ap (λ x. get_elem? (dirs ++ files) x) split
              ∙ get_elem?_back dirs files k
              ∙ get_elem?-map (file_entry t) dir.files k in
            elim (Bool-cases (ltb k (length dir.files))) [
              | inl there ↦ rw (at_i, back, at_k, there) (sym found)
              | inr past ↦
                  let gone = get_elem?_past dir.files k (ground (arith, past)) in
                  rw (at_i, back, at_k, past)
                    (sym (found ∙ ap (λ x. entry_of (file_entry t) x) gone))
            ]
      ]

  entries-listing :
      (n start i : ℕ)
      → start + i + n < 2 ^ 31
      → entries n t dir start i ≡ take n (drop (start + i) (listing t dir))
  unfolding entries
  entries-listing zero start i small = refl
  entries-listing (suc n) start i small =
      let here = entry_at-listing start i (omega arith) in
      let others = entries-listing n start (i + 1) (omega arith) in
      let along : start + (i + 1) ≡ start + i + 1 = omega arith in
      rw (here, others, along) (sym (take-drop n (start + i) (listing t dir)))

  -- getDirectoryEntries of a directory of at most 32 directories and 32 files: it fills in the
  -- entries of the directory, its directories first and then its files, from the base on and as many
  -- as the buffer has room for, and the base moves on by the bytes of these.
  pub list_directory-listing :
      (nbytes base : ℕ)
      → nbytes < 2 ^ 31
      → base < 2 ^ 31
      → (found : List Dirent) × (found ≡ take (nbytes / 268) (drop (base / 268) (listing t dir)))
        × (list_directory t dir nbytes base
            ≡ listed found (length found * 268) (add32 base (length found * 268)))
  unfolding list_directory
  list_directory-listing nbytes base small small' =
      let start : base / 268 + 0 ≡ base / 268 = omega arith in
      (
        entries (nbytes / 268) t dir (base / 268) 0,
        entries-listing (nbytes / 268) (base / 268) 0 (omega arith)
            ∙ ap (λ x. take (nbytes / 268) (drop x (listing t dir))) start,
        refl,
      )
