-- ===== src/Process/Files/WriteRead.antt =====
-- writeProcessFd, and reading what it wrote.
use blueberry_os.Base.{
  ℕ, ◌+◌, ◌*◌, ◌^◌, ◌≤◌, ◌<◌, ◌≡◌, ◌≢◌, ◌⊎◌, refl, ◌∙◌, arith, true, false, not, leb, set, u32,
  add32, flag, get_elem?-set_ne, ==-refl,
}
use blueberry_os.Libc.Mem.{memcpy}
use blueberry_os.Libc.Mem.Copy.{memcpy_lem}
use blueberry_os.Process.Files.{
  File, Pfd, Descriptors, o_rdonly, o_wronly, frame_4kb, to_int, put_file, read_process_fd,
  extend_file, write_pfd, write_process_fd,
}
use blueberry_os.Process.Files.Transfer.{Open, read_process_fd-whole}

-- The bytes that a write through `pfd` fills still lie within the frames of the file.
abbrev pub HasFrames : File → Pfd → ℕ → Type 0
HasFrames file pfd count =
    (pfd.position + count < file.frames * frame_4kb) × (file.frames * frame_4kb < 2 ^ 32)

extend_file-parts :
    (file : File) (n : ℕ)
    → ((extend_file file n).frames ≡ file.frames)
      × ((extend_file file n).content ≡ file.content)
      × (n ≤ (extend_file file n).size)
      × ((bound : ℕ) → file.size ≤ bound → n ≤ bound → (extend_file file n).size ≤ bound)
unfolding extend_file
extend_file-parts file n = (ground arith, ground arith, ground arith, λ bound h h'. ground arith)

-- writeProcessFd through an open, writable descriptor, where no frames have to be added.
write_process_fd-step :
    (kalloc_frames : ℕ → ℕ) (s : Descriptors) (buf count fd i : ℕ) (pfd : Pfd)
    → Open s fd i pfd
    → flag pfd.flags o_wronly ≡ true
    → HasFrames (s.files pfd.pointer) pfd count
    → (s.files pfd.pointer).content + pfd.position < 2 ^ 32
    → let file = s.files pfd.pointer in
      write_process_fd kalloc_frames s buf count fd ≡ (
        to_int count,
        record s {
          mem = (memcpy s.mem (file.content + pfd.position) buf count).1;
          files = put_file s.files pfd.pointer (extend_file file (pfd.position + count));
          pfds = set s.pfds i (record pfd { position = pfd.position + count });
        },
      )
unfolding write_process_fd write_pfd
write_process_fd-step kalloc_frames s buf count fd i pfd o writable (room, small) no_wrap =
    let file = s.files pfd.pointer in
    let index = o.index in
    let held = o.held in
    let on : not pfd.active ≡ false = rw o.on refl in
    let plain = o.plain in
    let e1 : u32 (file.content + pfd.position) ≡ file.content + pfd.position = omega arith in
    let e2 : add32 pfd.position count ≡ pfd.position + count = omega arith in
    let (frames, content, reached, bounded) = extend_file-parts file (pfd.position + count) in
    let enough : leb (u32 ((extend_file file (pfd.position + count)).frames * frame_4kb))
          (pfd.position + count)
        ≡ false =
      rw frames (ground arith) in
    rw (index, write_process_fd, held, on, plain, writable, e2, enough, content, e1) refl

put_file_self : (files : ℕ → File) (p : ℕ) (file : File) → put_file files p file p ≡ file
put_file_self files p file = rw (==-refl p) refl

-- What writeProcessFd wrote through one open, writable descriptor is what readProcessFd reads
-- through another open, readable descriptor of the same file at the same position: both return the
-- count, and the buffer read into holds the bytes that the written buffer held. The bytes written
-- end before the end of the frames, the size lies within the frames, and no address wraps; the
-- written buffer does not begin below the place of the bytes and reach into it, and the buffer read
-- into does not begin inside of that place.
pub read_process_fd-write_process_fd :
    (kalloc_frames : ℕ → ℕ) (s : Descriptors) (buf buf2 count fd fd2 i i2 : ℕ) (pfd pfd2 : Pfd)
    → Open s fd i pfd
    → flag pfd.flags o_wronly ≡ true
    → Open s fd2 i2 pfd2
    → flag pfd2.flags o_rdonly ≡ true
    → i ≢ i2
    → pfd2.pointer ≡ pfd.pointer
    → pfd2.position ≡ pfd.position
    → HasFrames (s.files pfd.pointer) pfd count
    → (s.files pfd.pointer).size ≤ (s.files pfd.pointer).frames * frame_4kb
    → (s.files pfd.pointer).content + pfd.position + count < 2 ^ 32
    → ((s.files pfd.pointer).content + pfd.position ≤ buf)
      ⊎ (buf + count ≤ (s.files pfd.pointer).content + pfd.position)
    → (buf2 ≤ (s.files pfd.pointer).content + pfd.position)
      ⊎ ((s.files pfd.pointer).content + pfd.position + count ≤ buf2)
    → let w = write_process_fd kalloc_frames s buf count fd in
      let r = read_process_fd w.1 buf2 count fd2 in
      (w.0 ≡ to_int count)
      × (r.0 ≡ to_int count)
      × ((k : ℕ) → k < count → r.1.mem (buf2 + k) ≡ s.mem (buf + k))
read_process_fd-write_process_fd kalloc_frames s buf buf2 count fd fd2 i i2 pfd pfd2 o writable o2
      readable differ same_file same_place (room, small) held_size no_wrap apart apart2 =
    let file = s.files pfd.pointer in
    let p = pfd.position in
    let extended = extend_file file (p + count) in
    let (frames, content, reached, bounded) = extend_file-parts file (p + count) in
    let fits : extended.size ≤ file.frames * frame_4kb =
      bounded (file.frames * frame_4kb) held_size (omega arith) in
    let (code, copied, kept) = memcpy_lem s.mem (file.content + p) buf count apart in
    let s1 : Descriptors = record s {
      mem = (memcpy s.mem (file.content + p) buf count).1;
      files = put_file s.files pfd.pointer extended;
      pfds = set s.pfds i (record pfd { position = p + count });
    } in
    let the_file : s1.files pfd2.pointer ≡ extended =
      rw same_file (put_file_self s.files pfd.pointer extended) in
    let o2' : Open s1 fd2 i2 pfd2 = record {
      index = o2.index;
      held = get_elem?-set_ne s.pfds i i2 (record pfd { position = p + count }) differ ∙ o2.held;
      on = o2.on;
      plain = o2.plain;
    } in
    let (code2, bytes) =
      read_process_fd-whole s1 buf2 count fd2 i2 pfd2 file.content p o2' readable
        (rw (the_file, content) refl) same_place (rw the_file reached) (rw the_file (omega arith))
        no_wrap apart2 in
    rw
      (write_process_fd-step kalloc_frames s buf count fd i pfd o writable (room, small)
        (omega arith))
      (refl, code2, λ k h. bytes k h ∙ copied k h)
