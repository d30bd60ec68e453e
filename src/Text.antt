-- ===== src/Text.antt =====
-- utils/string.h and string.cc: a `std::string` is the list of its bytes.
pub mod Utf8
pub mod Trim
pub mod Parts
pub mod Blank
mod Tests
