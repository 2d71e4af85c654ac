-- ===== src/Gate.antt =====
-- src/zee/gate: the entry gate, from the inspection of an artifact to the audit of what was installed.
pub mod Model
pub mod Scorer
pub mod Denylist
pub mod Inspector
pub mod Promote
pub mod Pins
pub mod Audit
