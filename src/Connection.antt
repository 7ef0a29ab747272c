-- ===== src/Connection.antt =====
-- The connection protocol: aries/aries_vcx/src/protocols/connection and common/signing.rs.
pub mod States
pub mod InviterStates
pub mod InviteeStates
pub mod Signing
pub mod Inviter
pub mod Invitee
pub mod Generic
pub mod Signed
pub mod Handshake
