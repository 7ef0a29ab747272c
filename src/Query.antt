-- ===== src/Query.antt =====
-- aries/misc/anoncreds_types/src/utils/query.rs: the queries of the wallet and of the restrictions
-- in a proof request.
pub mod Defs
pub mod Json
pub mod Meaning
pub mod Optimised
pub mod RoundTrip
