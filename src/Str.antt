-- ===== src/Str.antt =====
-- src/string.c: memory and strings.
pub mod Mem
pub mod Chars
pub mod Numbers
mod Tests
