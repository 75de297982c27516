-- ===== src/Common.antt =====
-- include/common and src/common.
pub mod Error
