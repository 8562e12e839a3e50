-- ===== src/Text.antt =====
-- The text helpers of the library: libupnpp/smallut.cpp and the small functions at the end of
-- libupnpp/upnpplib.cxx, one module for each family.
pub mod Case
pub mod Words
pub mod Csv
pub mod Tokens
pub mod Trim
pub mod Escape
pub mod Percent
pub mod Decimal
pub mod Url
pub mod Ranges
pub mod Prefix
pub mod Lines
pub mod Flags
mod Tests
