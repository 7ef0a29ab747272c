-- ===== src/Samples.antt =====
-- Concrete inputs for the development's theorems: a small world outside, and machines that use it.
pub mod Json
pub mod Decode
pub mod Unary
pub mod Split
pub mod Texts
pub mod World
pub mod Messages
pub mod Judged
pub mod Query
pub mod Holder
pub mod Issuer
pub mod Proof
pub mod Replies
pub mod Connection
pub mod Presenting
pub mod Revocation
