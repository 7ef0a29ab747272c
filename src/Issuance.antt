-- ===== src/Issuance.antt =====
-- aries/aries_vcx/src/protocols/issuance: the two state machines of `issue-credential` 1.0.
pub mod Encoding
pub mod Ledger
pub mod Holder
pub mod Issuer
pub mod Exchange
