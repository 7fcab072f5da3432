-- ===== src/Libc.antt =====
-- libc: the byte and string routines of libc/string and the number routines of libc/stdlib.
pub mod Mem
pub mod Str
pub mod Number
pub mod Heap
mod Tests
