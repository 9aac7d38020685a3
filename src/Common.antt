-- ===== src/Common.antt =====
-- pkg/common: what the other packages share.
pub mod Snowflake
