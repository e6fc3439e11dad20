-- ===== src/Stdlib.antt =====
-- What the C++ code uses of the standard library on texts: character classes, searches,
-- stream extraction of words, and decimal conversion (child `Decimal`).
pub mod Decimal
pub mod Hex
pub mod Words
mod Search
unfoldable pub use Search.*
