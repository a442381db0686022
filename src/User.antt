-- ===== src/User.antt =====
-- server/src/user and server/src/linux/hash.cpp: users, their passwords and their permissions.
pub mod Permissions
pub mod Hash
pub mod Table
mod Tests
