-- ===== src/Protocol.antt =====
-- common/protocol.py: the JSON-lines protocol, its field checks and the contexts that are bound
-- into authenticated messages.
pub mod Fields
pub mod Stream
pub mod Aad
pub mod Socket
