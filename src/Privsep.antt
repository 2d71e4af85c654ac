-- ===== src/Privsep.antt =====
-- src/zee/privsep/daemon.py: the small root part, which cuts on request and takes signed operations.
pub mod World
pub mod Reply
pub mod Admin
pub mod Files
pub mod Handle
pub mod Requests
pub mod Dispatch
pub mod Tamper
