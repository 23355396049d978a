-- ===== src/Text.antt =====
-- The functions of Go's package strings that the program calls, over a text as a list of bytes.
-- ToUpper and ToLower map the ASCII letters and leave every other byte as it is.
pub mod Bytes
pub mod Index
pub mod Trim
pub mod Decimal
pub mod Atoi
pub mod Octal
pub mod Paths
