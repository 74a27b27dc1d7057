-- ===== src/Clib.antt =====
-- student-distrib/lib.c, the part that works on memory and strings.
pub mod Asm
pub mod Fill
pub mod Copy
pub mod Strings
pub mod Move
pub mod Numbers
pub mod Support
