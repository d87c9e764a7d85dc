-- ===== src/CLib.antt =====
-- The functions of the C standard library that the server calls on strings, in the C locale.
pub mod Memory
pub mod Ctype
pub mod Tokens
pub mod Numbers
