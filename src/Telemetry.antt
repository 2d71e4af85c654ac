-- ===== src/Telemetry.antt =====
-- src/zee/telemetry: the ledger of cuts and the evidence log.
pub mod CutState
pub mod EventsLog
