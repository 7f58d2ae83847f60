-- ===== src/Unicode.antt =====
-- libs/Foundation/UnicodeConversion.cpp: the UTF-8 routines.
pub mod Utf8
pub mod Walk
pub mod Ascii
pub mod CaseFold
pub mod Normalize
pub mod Trim
pub mod Legacy
