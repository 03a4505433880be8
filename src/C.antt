-- ===== src/C.antt =====
-- What the drivers use of C and its library: blocks of memory, strings, characters, `atoi`, the
-- calendar. They are part of the language, so no source line of the repository stands behind them.
pub mod Memory
pub mod Str
pub mod Num
pub mod Time
