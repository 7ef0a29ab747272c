-- ===== src/Proof.antt =====
-- The present-proof protocol 1.0: aries/aries_vcx/src/protocols/proof_presentation.
pub mod Requests
pub mod Prover
pub mod Verifier
pub mod Exchange
