-- ===== src/Text.antt =====
-- What the program uses of Go's `strings` and `strconv`, on byte lists.
pub mod Strings
pub mod Numbers
pub mod Floats
pub mod Regex
