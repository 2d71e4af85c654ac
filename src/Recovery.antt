-- ===== src/Recovery.antt =====
-- src/zee/recovery: the manual recovery from a cut.
pub mod Host
pub mod Names
pub mod Recorded
pub mod Firewall
pub mod Restore
pub mod Token
