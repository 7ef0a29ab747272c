-- ===== src/Anoncreds.antt =====
-- aries/misc/anoncreds_types/src/data_types/messages: the data that proofs are made from.
pub mod Request
pub mod Intervals
pub mod Validation
pub mod Accepted
pub mod Selection
