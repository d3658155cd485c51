-- ===== src/Klib.antt =====
-- abstract-machine/libs/klib/src/string.c, in two views: the functions that only read strings work
-- on the bytes before the terminator, the functions that write work on a memory.
pub mod Strings
pub mod Memory
pub mod Format
mod Tests
