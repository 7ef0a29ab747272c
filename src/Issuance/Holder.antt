-- ===== src/Issuance/Holder.antt =====
-- aries/aries_vcx/src/protocols/issuance/holder: the party that receives a credential.
pub mod States
pub mod Request
pub mod Store
pub mod Machine
pub mod Finished
pub mod Queries
pub mod Handler
pub mod Invariant
pub mod Run
pub mod Order
pub mod Outcome
pub mod Replies
