-- ===== src/Lib.antt =====
-- BlueberryOS: the text terminal, page frames and page tables, the file tree and the process services of
-- the kernel, the heap and the byte, string and number routines of its libc, and the windows of ncurses.
--
-- The program. The kernel (kernel/src) draws text into video memory (tty.c), hands out page frames
-- (memory.c), enters them into page tables (paging.c), looks files up by their paths (file.c) and
-- keeps processes with their environment, descriptors, users and states (usermode.c). The libc (libc)
-- is linked into the kernel and into the programs: tty.c reads the arguments of an escape sequence
-- with atoi, usermode.c copies with memcpy and memmove and compares names with strcmp.
--
-- The files.
--   Base: native numbers and lists, words of 32 bits with their wrap-around written out, ℤ.
--   Libc.Heap: libc/stdlib/{malloc,free,calloc,realloc}.c. A tag is looked up by its address, beside
--     the bytes; page frames come from Memory.
--   Libc.Mem, Libc.Str, Libc.Number: libc/string, libc/ctype, libc/stdlib/{uitoa,itoa,atoi}.c.
--     Memory is a function from addresses to bytes, a pointer is a number. Addresses do not wrap.
--   Tty: kernel/src/tty.c. The record Tty holds the file's variables. Tty.Screen has clearing,
--     saving, restoring and scrolling, Tty.Escape parseArgs and the characters of a sequence,
--     Tty.Write terminal_writechar and what calls it, Tty.Command terminal_execute_cmd. Port writes
--     are a log.
--   PageTable: getPage and map_page_pd of kernel/src/paging.c and mapPageframe of kernel/src/memory.c,
--     over the record FrameMap, which has the variables of memory.c and the page tables. Memory is a
--     word by its address, and a page directory is an address. The allocator, which calls mapPageframe
--     and is called by it, is an argument.
--   Memory: the rest of kernel/src/memory.c. The bits of frame_map are Booleans by index.
--     Memory.Mapped is about maps whose frames are mapped, Memory.Grows and Memory.Marks about any,
--     and Memory.Nested about the calls of the allocator inside of itself.
--   Paging: the rest of kernel/src/paging.c, and resolveProcessAddress and freeProcessPagedirectory of
--     usermode.c. Paging.Space states it as a map from addresses to entries.
--   FileTree: kernel/src/file.c and include/kernel/file.h. Directories and files are entries of two
--     tables, a pointer is an index. FileTree.Create has the creation, FileTree.Paths what
--     findParent does with a path, FileTree.Initrd the reading of the tar archive.
--   Ncurses: ncurses/ncurses. A window is a record by its address, what goes to the terminal is a
--     log.
--   Process.Open: openProcessFile, getDirectoryEntries and statPath, over FileTree, Process.Access
--     and Process.Files.
--   Process.Env, Process.Files, Process.Access, Process.Schedule, Process.Stack:
--     kernel/src/usermode.c. Arrays are lists or functions of an index, and a pointer into an array
--     is an index.
--   Libc.Tests, Tty.Tests, Memory.Tests, Paging.Tests, FileTree.Tests, Ncurses.Tests,
--     Libc.Heap.Tests, Process.Open.Tests, Process.Tests and Process.Schedule.Tests apply the
--     theorems to small inputs.
--
-- Fuel. The loop of loadInitrd takes fuel, and `unfinished` means that it ran out. kmalloc and kfree
-- take fuel for the lists of tags. Loops that end at a NUL take fuel, and `none` means that it ran
-- out; the theorems say how much is enough. atoi on an argument of an escape sequence has 34 rounds,
-- since the terminator stands within 33 bytes. uitoa has 62 rounds, the size of its buffer. The
-- scheduler's loop has 31 rounds, one for each process but the current one. resolveProcessAddress has
-- as many rounds as bytes, and needs one for a page. The searches of the allocator are bounded by the
-- size of the map, and so is the depth of the calls of kalloc_frame inside of kalloc_frame, each of which
-- has a frame marked first.
--
-- Not modelled. Above the heap an allocation that a function makes is a parameter, an address or the
-- next index of a table. The ELF loader and changeDirectoryOwner of file.c, system calls (idt.c), assembly, stdio of the libc, wclear, wrefresh and the
-- format loop of ncurses, the programs of the initrd, and tinf, which is a copy of another project,
-- are left out, and so is what is printed as a log message.
pub mod Base
pub mod Libc
pub mod Tty
pub mod PageTable
pub mod Memory
pub mod Paging
pub mod FileTree
pub mod Ncurses
pub mod Process
