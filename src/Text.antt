-- ===== src/Text.antt =====
-- What the program uses of Rust's standard library on text: `to_string` and `parse` of a `u64`,
-- `str::lines`, `str::trim`, `str::contains`, `str::split` and `String::from_utf8`.
pub mod Graphic
pub mod Decimal
pub mod Lines
pub mod Trim
pub mod Utf8
pub mod Search
pub mod Split
pub mod Colons
