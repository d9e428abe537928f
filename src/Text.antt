-- ===== src/Text.antt =====
-- What the three programs use of Go's `strings`, `strconv`, `unicode` and `unicode/utf8`, on bytes.
pub mod Space
pub mod Parts
pub mod Affix
pub mod Base64
pub mod Case
pub mod Utf8
pub mod Decimal
pub mod Percent
pub mod Url
pub mod Dates
pub mod Headers
