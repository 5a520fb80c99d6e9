-- ===== src/Common.antt =====
-- packages/common: JSON values, and the texts that identifiers and endpoints are cut from.
pub mod Json
pub mod Number
pub mod Text
