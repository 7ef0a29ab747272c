-- ===== src/Revocation.antt =====
-- The revocation notification protocol 2.0: protocols/revocation_notification.
pub mod Sender
pub mod Receiver
pub mod Exchange
