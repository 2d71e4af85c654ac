-- ===== src/Notifier.antt =====
-- src/zee/notifier: the impact tier that a notification shows.
pub mod Tier
