-- ===== src/Protocol.antt =====
-- server/src/protocol and server/include/tds/protocol: the TinDox protocol.
pub mod Error
pub mod Field
pub mod Interpreter
pub mod Response
pub mod Socket
pub mod Download
mod Tests
