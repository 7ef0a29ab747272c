-- ===== src/Proof/Verifier.antt =====
-- aries/aries_vcx/src/protocols/proof_presentation/verifier: the party that asks for one.
pub mod States
pub mod Check
pub mod Fetched
pub mod Machine
pub mod Queries
pub mod Handler
pub mod Invariant
pub mod Run
pub mod Outcome
pub mod Honest
pub mod Replies
