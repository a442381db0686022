-- ===== src/Session/Commands.antt =====
-- server/src/protocol/execution: the commands, each as the parser of its fields and its execution.
pub mod Account
pub mod Browse
pub mod Files
pub mod Transfer
pub mod Locked
pub mod Attempts
pub mod Limits
pub mod Copies
