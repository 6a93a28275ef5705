-- ===== src/Go.antt =====
-- What the program takes from Go and its standard library: texts, errors, results that may panic,
-- calls that change the world outside, and hexadecimal (encoding/hex).
pub mod Text
pub mod Outcome
pub mod Exec
pub mod Hex
