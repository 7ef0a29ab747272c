-- ===== src/Issuance/Issuer.antt =====
-- aries/aries_vcx/src/protocols/issuance/issuer: the party that issues a credential.
pub mod States
pub mod Credential
pub mod Machine
pub mod Queries
pub mod Handler
pub mod Invariant
pub mod Run
pub mod Order
pub mod Outcome
pub mod Revoke
