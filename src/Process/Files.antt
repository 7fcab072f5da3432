-- ===== src/Process/Files.antt =====
-- usermode.c: the file descriptors of a process, and reading and writing through them.
-- A pointer into `pfds` is an index. The memory holds the contents of the files and the buffers of
-- the caller; the page frames come from the allocator, whose own state is not part of the model.
pub mod Transfer
pub mod WriteRead
pub mod Close
use blueberry_os.Base.{
  ℕ, zero, suc, ◌+◌, ◌-◌, ◌*◌, ◌/◌, ◌%◌, ◌^◌, ◌==◌, Bool, true, false, not, ltb, leb, if◌then◌else◌,
  Option, none, some, List, length, get_elem?, set, u32, add32, sub32, flag,
}
use blueberry_os.Base.Int.{ℤ, pos, negsuc, sub_ℕ}
use blueberry_os.Libc.Mem.{Mem, memcpy}

-- The fields of file_t that reading and writing use; `content` is an address, 0 for NULL.
pub record File : Type 0 where
  pub content : ℕ
  pub size : ℕ
  pub frames : ℕ

-- pfd_t; `pointer` is the address of a file.
pub record Pfd : Type 0 where
  pub position : ℕ
  pub fd : ℕ
  pub pointer : ℕ
  pub flags : ℕ
  pub active : Bool

pub record Descriptors : Type 0 where
  pub mem : Mem
  pub files : ℕ → File
  pub pfds : List Pfd
  pub errnum : ℕ

abbrev pub max_file_descriptors : ℕ
max_file_descriptors = 64

abbrev pub frame_4kb : ℕ
frame_4kb = 4096

abbrev pub o_rdonly : ℕ
o_rdonly = 1

abbrev pub o_wronly : ℕ
o_wronly = 2

abbrev pub o_directory : ℕ
o_directory = 4

abbrev pub ebadf : ℕ
ebadf = 9

-- A `size_t` returned as an `int`.
unfoldable pub to_int : ℕ → ℤ
to_int n = if ltb n (2 ^ 31) then pos n else sub_ℕ n (2 ^ 32)

-- The index of the descriptor, `none` for NULL. `fd -= 3` wraps below 3.
unfoldable pub get_process_pfd : ℕ → Option ℕ
get_process_pfd fd = let i = sub32 fd 3 in if leb max_file_descriptors i then none else some i

abbrev pub put_file : (ℕ → File) → ℕ → File → ℕ → File
put_file files p file a = if a == p then file else files a

-- The bytes that readProcessFd is going to copy.
unfoldable pub read_count : File → Pfd → ℕ → ℕ
read_count file pfd count =
    if ltb (sub32 file.size pfd.position) count then sub32 file.size pfd.position else count

-- The body of readProcessFd behind the look-up.
unfoldable pub read_pfd : Descriptors → ℕ → Pfd → ℕ → ℕ → ℤ × Descriptors
read_pfd s i pfd buf count =
    let file = s.files pfd.pointer in
    let n = read_count file pfd count in
    if not pfd.active
    then (negsuc 0, s)
    else if flag pfd.flags o_directory
    then (negsuc 0, s)
    else if not (flag pfd.flags o_rdonly)
    then (negsuc 0, s)
    else if leb file.size pfd.position
    then (pos 0, s)
    else (
      to_int n,
      record s {
        mem = (memcpy s.mem buf (u32 (file.content + pfd.position)) n).1;
        pfds = set s.pfds i (record pfd { position = add32 pfd.position n });
      },
    )

unfoldable pub read_process_fd : Descriptors → ℕ → ℕ → ℕ → ℤ × Descriptors
read_process_fd s buf count fd = elim (get_process_pfd fd) [
  | none ↦ (negsuc 0, s)
  | some i ↦ elim (get_elem? s.pfds i) [
    | none ↦ (negsuc 0, s)
    | some pfd ↦ read_pfd s i pfd buf count
  ]
]

-- `*errnum = EBADF; return -1;`
abbrev pub bad_descriptor : Descriptors → ℤ × Descriptors
bad_descriptor s = (negsuc 0, record s { errnum = ebadf })

-- `if (pfd->position + count > file->size) file->size = pfd->position + count;`
unfoldable pub extend_file : File → ℕ → File
extend_file file end_position =
    if ltb file.size end_position then record file { size = end_position } else file

-- The reallocation: the number of bytes copied is the size that was just extended.
unfoldable pub reallocate : (ℕ → ℕ) → Mem → File → ℕ → Mem × File
reallocate kalloc_frames m file end_position =
    let frames = add32 file.size (frame_4kb - 1) / frame_4kb in
    let content = kalloc_frames frames in
    let m' = if file.content == 0 then m else (memcpy m content file.content file.size).1 in
    (m', record { content = content; size = end_position; frames = frames })

-- The body of writeProcessFd behind the tests.
unfoldable pub write_pfd : (ℕ → ℕ) → Descriptors → ℕ → Pfd → ℕ → ℕ → ℤ × Descriptors
write_pfd kalloc_frames s i pfd buf count =
    let end_position = add32 pfd.position count in
    let extended = extend_file (s.files pfd.pointer) end_position in
    let (m, file) =
      if leb (u32 (extended.frames * frame_4kb)) end_position
      then reallocate kalloc_frames s.mem extended end_position
      else (s.mem, extended) in
    (
      to_int count,
      record s {
        mem = (memcpy m (u32 (file.content + pfd.position)) buf count).1;
        files = put_file s.files pfd.pointer file;
        pfds = set s.pfds i (record pfd { position = end_position });
      },
    )

unfoldable pub write_process_fd : (ℕ → ℕ) → Descriptors → ℕ → ℕ → ℕ → ℤ × Descriptors
write_process_fd kalloc_frames s buf count fd = elim (get_process_pfd fd) [
  | none ↦ bad_descriptor s
  | some i ↦ elim (get_elem? s.pfds i) [
    | none ↦ bad_descriptor s
    | some pfd ↦
        if not pfd.active
        then bad_descriptor s
        else if flag pfd.flags o_directory
        then bad_descriptor s
        else if not (flag pfd.flags o_wronly)
        then bad_descriptor s
        else write_pfd kalloc_frames s i pfd buf count
  ]
]

-- What closeProcessFd does: it returns a code and leaves the array, or it writes to an element
-- behind the array's last one.
pub data Closed : Type 0 where
  closed : ℤ → List Pfd → Closed
  outside : ℕ → Closed

-- `process->pfds[i].active = false; return 0;`
unfoldable pub deactivate : List Pfd → ℕ → Closed
deactivate pfds i = elim (get_elem? pfds i) [
  | none ↦ outside i
  | some pfd ↦ closed (pos 0) (set pfds i (record pfd { active = false }))
]

-- The look-up takes 3 from the descriptor, the last assignment does not.
unfoldable pub close_process_fd : List Pfd → ℕ → Closed
close_process_fd pfds fd = elim (get_process_pfd fd) [
  | none ↦ closed (negsuc 0) pfds
  | some i ↦ elim (get_elem? pfds i) [
    | none ↦ closed (negsuc 0) pfds
    | some pfd ↦ if not pfd.active then closed (negsuc 0) pfds else deactivate pfds fd
  ]
]
