-- ===== src/Common.antt =====
-- src/common: the helpers that the services share.
pub mod Money
pub mod Text
