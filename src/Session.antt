-- ===== src/Session.antt =====
-- server/src/protocol: what a client's connection and the server share, and the commands on it.
pub mod State
pub mod Context
pub mod Arguments
pub mod Commands
pub mod Unique
pub mod Owned
pub mod Executor
pub mod Upload
pub mod Connection
pub mod Closing
pub mod Client
pub mod Toy
mod Tests
