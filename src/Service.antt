-- ===== src/Service.antt =====
-- server/src/server: the clients of a server, over one server context.
pub mod Pool
pub mod Server
pub mod Owners
pub mod Invariant
pub mod Reach
pub mod Exclusive
pub mod Main
mod Tests
