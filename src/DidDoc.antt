-- ===== src/DidDoc.antt =====
-- aries/misc/legacy/diddoc_legacy/src: the DID documents of the connection protocol.
pub mod Doc
pub mod Keys
pub mod Built
