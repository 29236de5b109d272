-- ===== src/Stdlib.antt =====
-- The functions of Go's standard library that the program calls, written from their documentation.
pub mod Strings
pub mod Hex
pub mod Path
