-- ===== src/Platform.antt =====
-- platform-js/platform-js/src/effect: the branded strings, ranges and identifiers that the command
-- line's packages are built on.
pub mod IntegerRange
pub mod Hex
pub mod Keys
pub mod NetworkId
