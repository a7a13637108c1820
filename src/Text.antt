-- ===== src/Text.antt =====
-- Text as UTF-8 bytes: what the source uses of Rust's `format!`, `parse` and `str`.
pub mod Number
pub mod Utf8
pub mod Words
