-- ===== src/Cli.antt =====
-- server/src/cli: the commands of the program `tds`.
pub mod User
pub mod Run
mod Tests
