-- ===== src/Process/Stack.antt =====
-- usermode.c: processPush and processPushStr, which build the stack of a new process.
use blueberry_os.Base.{
  ℕ, ◌+◌, ◌-◌, ◌*◌, ◌/◌, ◌%◌, leb, if◌then◌else◌, Option, none, some, add32, sub32, u8, u32,
}
use blueberry_os.Libc.Mem.{Mem, write8, memcpy}
use blueberry_os.Libc.Str.{strlen}

-- `physical_stack` is an address of the kernel's, the other two are the process's own.
pub record Stack : Type 0 where
  pub mem : Mem
  pub physical_stack : ℕ
  pub virtual_stack_top : ℕ
  pub esp : ℕ

abbrev pub stack_top_offset : ℕ
stack_top_offset = 3840

abbrev pub stack_top_index : ℕ
stack_top_index = stack_top_offset / 4 - 1

abbrev pub max_arg_length : ℕ
max_arg_length = 256

-- A little-endian word of four bytes.
unfoldable pub write32 : Mem → ℕ → ℕ → Mem
write32 m p v =
    write8 (write8 (write8 (write8 m p (u8 v)) (p + 1) (u8 (v / 256))) (p + 2) (u8 (v / 65536)))
      (p + 3) (u8 (v / 16777216))

unfoldable pub process_push : Stack → ℕ → ℕ × Stack
process_push s value =
    let offset = sub32 s.virtual_stack_top s.esp / 4 in
    let esp = sub32 s.esp 4 in
    (
      add32 esp 4,
      record s {
        mem = write32 s.mem (u32 (s.physical_stack + 4 * sub32 stack_top_index offset)) value;
        esp = esp;
      },
    )

-- `none` where the text is too long, since the kernel then hangs, and where the fuel runs out.
unfoldable pub process_push_str : ℕ → Stack → ℕ → Option (ℕ × Stack)
process_push_str fuel s str = elim (strlen fuel s.mem str) [
  | none ↦ none
  | some n ↦
      let len = n + 1 in
      let offset = sub32 s.virtual_stack_top s.esp in
      let esp = sub32 s.esp len in
      if leb max_arg_length len
      then none
      else some (
        esp,
        record s {
          mem =
              (memcpy s.mem (sub32 (sub32 (s.physical_stack + stack_top_offset) offset) len) str
                len).1;
          esp = sub32 esp (esp % 4);
        },
      )
]
