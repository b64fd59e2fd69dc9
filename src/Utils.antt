-- ===== src/Utils.antt =====
-- src/utils: the helpers that the other parts share.
pub mod Retry
pub mod Strings
pub mod Pg
pub mod Base64
pub mod Hex
pub mod Config
