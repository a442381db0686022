-- ===== src/Terminal.antt =====
-- cli/src/tdpservice: the terminal client, as far as it speaks the protocol.
pub mod Analyzer
pub mod Connection
pub mod Service
pub mod Conversation
pub mod Transfer
pub mod Files
pub mod Storage
mod Tests
