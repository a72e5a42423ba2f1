-- ===== src/Command.antt =====
-- The command packets: their parameters, their replies, and which parameters a command takes.
pub mod Parameter
pub mod Response
pub mod Validation
