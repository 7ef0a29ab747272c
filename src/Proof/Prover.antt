-- ===== src/Proof/Prover.antt =====
-- aries/aries_vcx/src/protocols/proof_presentation/prover: the party that makes one.
pub mod States
pub mod Build
pub mod Timed
pub mod Selected
pub mod Machine
pub mod Queries
pub mod Handler
pub mod Invariant
pub mod Run
pub mod Order
pub mod Outcome
pub mod Replies
