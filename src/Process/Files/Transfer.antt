-- ===== src/Process/Files/Transfer.antt =====
-- readProcessFd: the bytes, the position and the number returned.
use blueberry_os.Base.{
  ℕ, zero, suc, ◌+◌, ◌-◌, ◌^◌, ◌≤◌, ◌<◌, ◌≡◌, ◌⊎◌, inl, inr, refl, ◌∙◌, ap, arith, true, false, not,
  ltb, leb, if◌then◌else◌, some, List, [], ◌∷◌, Bool-cases, get_elem?, set, u32, add32, flag,
}
use blueberry_os.Base.Int.{pos}
use blueberry_os.Libc.Mem.{memcpy}
use blueberry_os.Libc.Mem.Copy.{Outside, memcpy_lem}
use blueberry_os.Process.Files.{
  File, Pfd, Descriptors, o_directory, o_rdonly, to_int, get_process_pfd, read_count, read_pfd,
  read_process_fd,
}

-- The descriptor `fd` is open, is the element `i`, which holds `pfd`, and is no directory.
pub record Open (s : Descriptors) (fd i : ℕ) (pfd : Pfd) : Type 0 where
  pub index : get_process_pfd fd ≡ some i
  pub held : get_elem? s.pfds i ≡ some pfd
  pub on : pfd.active ≡ true
  pub plain : flag pfd.flags o_directory ≡ false

-- The addresses from the position on, for `n` bytes, do not wrap.
abbrev pub NoWrap : File → Pfd → ℕ → Type 0
NoWrap file pfd n =
    (pfd.position + n < 2 ^ 32) × (file.size < 2 ^ 32) × (file.content + pfd.position + n < 2 ^ 32)

-- What is left of the file behind the position, and at most `count`.
abbrev pub to_read : File → Pfd → ℕ → ℕ
to_read file pfd count =
    if ltb (file.size - pfd.position) count then file.size - pfd.position else count

get_elem?-set_held :
    (pfds : List Pfd) (i : ℕ) (old new : Pfd)
    → get_elem? pfds i ≡ some old
    → get_elem? (set pfds i new) i ≡ some new
get_elem?-set_held [] i old new e = cc
get_elem?-set_held (pfd ∷ pfds) zero old new e = refl
get_elem?-set_held (pfd ∷ pfds) (suc i) old new e = get_elem?-set_held pfds i old new e

position_zero : (pfd : Pfd) → pfd ≡ record pfd { position = pfd.position + 0 }
position_zero pfd = let e : pfd.position + 0 ≡ pfd.position = omega arith in rw e refl

read_count_lem :
    (file : File) (pfd : Pfd) (count : ℕ)
    → pfd.position < file.size
    → file.size < 2 ^ 32
    → read_count file pfd count ≡ to_read file pfd count
unfolding read_count
read_count_lem file pfd count more small = ground arith

-- readProcessFd before the end of the file, and at its end.
read_process_fd-more :
    (s : Descriptors) (buf count fd i : ℕ) (pfd : Pfd)
    → Open s fd i pfd
    → flag pfd.flags o_rdonly ≡ true
    → NoWrap (s.files pfd.pointer) pfd (to_read (s.files pfd.pointer) pfd count)
    → pfd.position < (s.files pfd.pointer).size
    → let file = s.files pfd.pointer in
      let n = to_read file pfd count in
      read_process_fd s buf count fd ≡ (
        to_int n,
        record s {
          mem = (memcpy s.mem buf (file.content + pfd.position) n).1;
          pfds = set s.pfds i (record pfd { position = pfd.position + n });
        },
      )
unfolding read_process_fd read_pfd
read_process_fd-more s buf count fd i pfd o readable (fits, small, no_wrap) more =
    let file = s.files pfd.pointer in
    let n = to_read file pfd count in
    let index = o.index in
    let held = o.held in
    let on : not pfd.active ≡ false = rw o.on refl in
    let plain = o.plain in
    let e : read_count file pfd count ≡ n = read_count_lem file pfd count more small in
    let e1 : u32 (file.content + pfd.position) ≡ file.content + pfd.position = omega arith in
    let e2 : add32 pfd.position n ≡ pfd.position + n = omega arith in
    let e3 : leb file.size pfd.position ≡ false = ground arith in
    rw (index, read_process_fd, held, on, plain, readable, e3, e, e1, e2) refl

read_process_fd-end :
    (s : Descriptors) (buf count fd i : ℕ) (pfd : Pfd)
    → Open s fd i pfd
    → flag pfd.flags o_rdonly ≡ true
    → (s.files pfd.pointer).size ≤ pfd.position
    → read_process_fd s buf count fd ≡ (pos 0, s)
unfolding read_process_fd read_pfd
read_process_fd-end s buf count fd i pfd o readable over =
    let index = o.index in
    let held = o.held in
    let on : not pfd.active ≡ false = rw o.on refl in
    let plain = o.plain in
    let e : leb (s.files pfd.pointer).size pfd.position ≡ true = ground arith in
    rw (index, read_process_fd, held, on, plain, readable, e) refl

-- readProcessFd through an open, readable descriptor, where no address wraps and the buffer does
-- not begin inside of the bytes read: it returns the number of bytes that are left behind the
-- position, `count` at most; so many bytes of the file stand in the buffer afterwards, nothing else
-- in memory changes, and the position moves on by as many.
pub read_process_fd_lem :
    (s : Descriptors) (buf count fd i : ℕ) (pfd : Pfd)
    → Open s fd i pfd
    → flag pfd.flags o_rdonly ≡ true
    → NoWrap (s.files pfd.pointer) pfd (to_read (s.files pfd.pointer) pfd count)
    → (buf ≤ (s.files pfd.pointer).content + pfd.position)
      ⊎ ((s.files pfd.pointer).content + pfd.position + to_read (s.files pfd.pointer) pfd count
          ≤ buf)
    → let file = s.files pfd.pointer in
      let n = to_read file pfd count in
      let r = read_process_fd s buf count fd in
      (r.0 ≡ to_int n)
      × ((k : ℕ) → k < n → r.1.mem (buf + k) ≡ s.mem (file.content + pfd.position + k))
      × ((a : ℕ) → Outside a buf n → r.1.mem a ≡ s.mem a)
      × (get_elem? r.1.pfds i ≡ some (record pfd { position = pfd.position + n }))
unfolding to_int
read_process_fd_lem s buf count fd i pfd o readable nw apart =
    let file = s.files pfd.pointer in
    let n = to_read file pfd count in
    let held = o.held in
    elim (Bool-cases (ltb pfd.position file.size)) [
      | inl more ↦
          let (returned, copied, kept) =
            memcpy_lem s.mem buf (file.content + pfd.position) n apart in
          rw (read_process_fd-more s buf count fd i pfd o readable nw (ground arith)) (
            refl,
            copied,
            kept,
            get_elem?-set_held s.pfds i pfd (record pfd { position = pfd.position + n }) held,
          )
      | inr over ↦
          let zero_left : n ≡ 0 = ground arith in
          rw (read_process_fd-end s buf count fd i pfd o readable (ground arith), zero_left)
            (refl, λ k h. absurd (omega arith), λ a h. refl, held ∙ ap some (position_zero pfd))
    ]

-- A read of `count` bytes, where the file has so many behind the position.
pub read_process_fd-whole :
    (s : Descriptors) (buf count fd i : ℕ) (pfd : Pfd) (content place : ℕ)
    → Open s fd i pfd
    → flag pfd.flags o_rdonly ≡ true
    → (s.files pfd.pointer).content ≡ content
    → pfd.position ≡ place
    → place + count ≤ (s.files pfd.pointer).size
    → (s.files pfd.pointer).size < 2 ^ 32
    → content + place + count < 2 ^ 32
    → (buf ≤ content + place) ⊎ (content + place + count ≤ buf)
    → ((read_process_fd s buf count fd).0 ≡ to_int count)
      × ((k : ℕ)
          → k < count
          → (read_process_fd s buf count fd).1.mem (buf + k) ≡ s.mem (content + place + k))
read_process_fd-whole s buf count fd i pfd content place o readable e1 e2 long small no_wrap apart =
    let all : to_read (s.files pfd.pointer) pfd count ≡ count = ground arith in
    let (code, bytes, kept, moved) =
      read_process_fd_lem s buf count fd i pfd o readable
        (rw (all, e1, e2) (omega arith, small, no_wrap)) (rw (all, e1, e2) apart) in
    (rw all at code, λ k h. rw (bytes k (rw all h), e1, e2) refl)
