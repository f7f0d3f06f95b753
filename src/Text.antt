-- ===== src/Text.antt =====
-- src/string_util.cpp: the string helpers. A `std::string` or `std::wstring` is the list of its
-- units, so each pair of overloads is one definition; `npos` is `none`.
pub mod Chars
pub mod Trim
pub mod Find
pub mod Replace
pub mod Split
pub mod Examples
