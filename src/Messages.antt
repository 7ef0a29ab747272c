-- ===== src/Messages.antt =====
-- The crate aries/messages: the parts of a message, the decorators, and the messages.
-- A `DateTime<Utc>` is a number, a `Url` its text, and a `serde_json::Value` inside a message its
-- JSON text; no operation of the development looks into one.
pub mod Parts
pub mod Connection
pub mod Issuance
pub mod Proof
pub mod Revocation
pub mod Aries
