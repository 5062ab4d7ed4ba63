-- ===== src/Utils.antt =====
-- 111/src/utils.rs: the consensus constants, checked arithmetic of the standard library, the
-- block reward and the compact form of a target.
pub mod Constants
pub mod Checked
pub mod Secrets
pub mod Subsidy
pub mod Compact
