-- ===== src/Util.antt =====
-- aries/aries_vcx/src/handlers/util.rs and protocols/common.rs: what the protocols share.
pub mod Thread
pub mod Attach
pub mod Report
