-- ===== src/Fmt.antt =====
-- src/fmt: numbers in text, and texts.
pub mod Number
pub mod Text
pub mod Tests
